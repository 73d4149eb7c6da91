-- ===== src/Config/Load/Safe.antt =====
-- What a loaded configuration guarantees (`load_config` of src/cmnd_linux/config.py).
use linux_cmnd.Prelude.{
  ◌≡◌, ◌≤◌, ◌<◌, ◌*◌, ◌^◌, ◌⊎◌, inl, inr, ◌&&◌, ◌||◌, &&-eq_true, any, length, leb, ltb, ◌==◌, refl,
  ℕ, String, Bool, true, false, not, Option, List, [], ◌∷◌, arith, all, All, one_of,
}
use linux_cmnd.Prelude.Chars.{Text, codes, is_letter, is_digit}
use linux_cmnd.Protocol.Requests.{is_tv_identity, is_identity_char}
use linux_cmnd.Result.{ok}
use linux_cmnd.Result.Chain.{Ensures, Ensures-ok, Ensures-bind, Ensures-refuse}
use linux_cmnd.Json.{Json, Fields, lookup, ℤ, pos, negsuc}
use linux_cmnd.Config.Types.{
  IpLibrary, AllowedTv, Config, Float, not_finite, finite, write_operations,
}
use linux_cmnd.Config.Load.{
  Python, between, distinct, timely, load_tv, load_tvs, port_list, cms_value, modes, mode_of,
  load_config,
}

not-false : (b : Bool) → not b ≡ false → b ≡ true
not-false b h = ground arith

all-All : {A : Type 0} (p : A → Bool) (xs : List A) → all p xs ≡ true → All (λ x. p x ≡ true) xs
all-All p [] h = tt
all-All p (x ∷ xs) h = (ground arith, all-All p xs (ground arith))

-- A letter, a digit, or one of `:._-`.
abbrev pub IsIdentityLetter : ℕ → Type 0
IsIdentityLetter c =
    (is_letter c ≡ true) ⊎ (is_digit c ≡ true) ⊎ (any (λ d. d == c) (codes ":._-") ≡ true)

-- An allowlisted TV has a well-formed identity and approves only write operations.
pub record IsListed (tv : AllowedTv) : Type 0 where
  pub long : 8 ≤ length (codes tv.identity)
  pub short : length (codes tv.identity) ≤ 128
  pub lettered : All IsIdentityLetter (codes tv.identity)
  pub approved : All (λ op. one_of op write_operations ≡ true) tv.operations

abbrev pub listeners : Config → List ℤ
listeners c = c.tomcat_http ∷ c.tomcat_https ∷ c.apache_http ∷ c.apache_https ∷ c.database_port ∷ []

-- Above 0 and at most 120; a finite float is m / 2 ^ k.
abbrev pub IsTimely : Float → Type 0
IsTimely not_finite = ⊥
IsTimely (finite (pos m) k) = (0 < m) × (m ≤ 120 * 2 ^ k)
IsTimely (finite (negsuc m) k) = ⊥

timely-IsTimely : (t : Float) → timely t ≡ true → IsTimely t
timely-IsTimely not_finite h = cc h
timely-IsTimely (finite (pos m) k) h = bounds m (120 * 2 ^ k) h
  where
    bounds : (m n : ℕ) → (ltb 0 m && leb m n) ≡ true → (0 < m) × (m ≤ n)
    bounds m n h = ground arith
timely-IsTimely (finite (negsuc m) k) h = cc h

identity_letter : (c : ℕ) → is_identity_char c ≡ true → IsIdentityLetter c
identity_letter c h =
    sorted (is_letter c) (is_digit c) (c == b':') (c == b'.') (c == b'_') (c == b'-') h
      (same b':' c) (same b'.' c) (same b'_' c) (same b'-' c)
  where
    same : (a b : ℕ) → (b == a) ≡ (a == b)
    same a b = ground arith

    sorted :
        (l d p q r s : Bool) {p1 q1 r1 s1 : Bool}
        → (l || d || p || q || r || s) ≡ true
        → p ≡ p1
        → q ≡ q1
        → r ≡ r1
        → s ≡ s1
        → (l ≡ true) ⊎ (d ≡ true) ⊎ ((p1 || (q1 || (r1 || (s1 || false)))) ≡ true)
    sorted true d p q r s h e f g k = inl refl
    sorted false true p q r s h e f g k = inr (inl refl)
    sorted false false p q r s h e f g k = inr (inr (ground arith))

letters_of : (cs : Text) → all is_identity_char cs ≡ true → All IsIdentityLetter cs
letters_of [] h = tt
letters_of (c ∷ cs) h =
    let both = &&-eq_true (is_identity_char c) (all is_identity_char cs) h in
    (identity_letter c both.0, letters_of cs both.1)

tv_identity_parts :
    (s : String)
    → is_tv_identity s ≡ true
    → (8 ≤ length (codes s)) × (length (codes s) ≤ 128) × All IsIdentityLetter (codes s)
unfolding is_tv_identity
tv_identity_parts s h =
    let both =
      &&-eq_true (leb 8 (length (codes s)) && leb (length (codes s)) 128)
        (all is_identity_char (codes s)) h in
    (lower (length (codes s)) both.0, upper (length (codes s)) both.0, letters_of (codes s) both.1)
  where
    lower : (n : ℕ) → (leb 8 n && leb n 128) ≡ true → 8 ≤ n
    lower n k = ground arith

    upper : (n : ℕ) → (leb 8 n && leb n 128) ≡ true → n ≤ 128
    upper n k = ground arith

pub record IsSafe (py : Python) (lib : IpLibrary) (c : Config) : Type 0 where
  pub known_mode : one_of c.mode (modes py lib) ≡ true
  pub networks : All (λ net. lib.is_network net ≡ true) c.permitted_ranges
  pub tvs : All IsListed c.allowed_tvs
  pub bounded_timeout : IsTimely c.timeout_seconds
  pub valid_ports : All (λ p. between 1 65535 p ≡ true) (listeners c)
  pub distinct_ports : distinct (listeners c) ≡ true
  pub upload : between 1 8096 c.cms_upload_limit_mb ≡ true
  pub memory : between 64 256 c.cms_memory_limit_mb ≡ true
  pub execution : between 0 86400 c.cms_execution_timeout_seconds ≡ true

mode_of-known :
    (py : Python) (lib : IpLibrary) (v : Option Json) (mode : String)
    → mode_of py lib v ≡ ok mode
    → one_of mode (modes py lib) ≡ true
mode_of-known py lib v mode h = ground arith

cms_value-between :
    (py : Python) (lib : IpLibrary) (lower upper default : ℕ) (v : Option Json) (z : ℤ)
    → between lower upper (pos default) ≡ true
    → cms_value py lib lower upper default v ≡ ok z
    → between lower upper z ≡ true
cms_value-between py lib lower upper default v z d h = ground arith

module _ (py : Python) (lib : IpLibrary) where
  load_tv-IsListed : (item : Fields) → Ensures IsListed (load_tv py lib item)
  unfolding load_tv
  load_tv-IsListed item = Ensures-bind _ _ λ target _. Ensures-refuse _ _ _ λ identity.
      Ensures-bind _ _ λ raw _. Ensures-refuse _ _ _ λ operations.
        let parts = tv_identity_parts _ (not-false _ identity) in
        Ensures-ok _ (record {
          long = parts.0;
          short = parts.1;
          lettered = parts.2;
          approved = all-All _ _ (not-false _ operations);
        })

  load_tvs-IsListed : (entries : List Json) → Ensures (All IsListed) (load_tvs py lib entries)
  unfolding load_tvs
  load_tvs-IsListed [] = Ensures-ok [] tt
  load_tvs-IsListed (item ∷ rest) =
      let others = load_tvs-IsListed rest in
      Ensures-bind _ _ λ fields _. Ensures-bind _ _ λ tv made.
        Ensures-bind _ _ λ tvs found.
          Ensures-ok _ ((load_tv-IsListed fields).holds tv made, others.holds tvs found)

  load_config-Ensures : (raw : Fields) → Ensures (IsSafe py lib) (load_config py lib raw)
  unfolding load_config
  load_config-Ensures raw = Ensures-bind _ _ λ safety _. Ensures-bind _ _ λ network _.
      Ensures-bind _ _ λ ports _. Ensures-bind _ _ λ cms _. Ensures-bind _ _ λ mode m.
        Ensures-refuse _ _ _ λ bind. Ensures-refuse _ _ _ λ callback. Ensures-bind _ _ λ listed _.
          Ensures-refuse _ _ _ λ nets. Ensures-bind _ _ λ tv _. Ensures-bind _ _ λ allowlist _.
            Ensures-bind _ _ λ allowed a. Ensures-refuse _ _ _ λ reachable.
              Ensures-bind _ _ λ timeout _. Ensures-refuse _ _ _ λ late.
                Ensures-bind _ _ λ values _. Ensures-refuse _ _ _ λ range.
                  Ensures-refuse _ _ _ λ same. Ensures-bind _ _ λ upload u.
                    Ensures-bind _ _ λ memory n. Ensures-bind _ _ λ execution x.
                      Ensures-ok _ (record {
                        known_mode = mode_of-known py lib (lookup "mode" safety) mode m;
                        networks = all-All lib.is_network _ (not-false _ nets);
                        tvs = (load_tvs-IsListed allowlist).holds allowed a;
                        bounded_timeout = timely-IsTimely timeout (not-false _ late);
                        valid_ports =
                            all-All (between 1 65535) (port_list py lib values) (not-false _ range);
                        distinct_ports = not-false _ same;
                        upload =
                            cms_value-between py lib 1 8096 8096 (lookup "upload_limit_mb" cms)
                              upload refl u;
                        memory =
                            cms_value-between py lib 64 256 256 (lookup "memory_limit_mb" cms)
                              memory refl n;
                        execution =
                            cms_value-between py lib 0 86400 0
                              (lookup "execution_timeout_seconds" cms) execution refl x;
                      })

  -- A configuration that loads has a known mode, ranges that are networks, TVs that approve
  -- only write operations and whose identity has 8 to 128 letters, digits, or characters of `:._-`, a timeout above 0 and at most 120 seconds, five
  -- distinct ports in 1..65535, and CMS limits in their ranges.
  pub load_config-IsSafe :
      (raw : Fields) (c : Config) → load_config py lib raw ≡ ok c → IsSafe py lib c
  load_config-IsSafe raw c h = (load_config-Ensures raw).holds c h
