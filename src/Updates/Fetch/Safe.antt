-- ===== src/Updates/Fetch/Safe.antt =====
-- The credential goes to the GitHub API alone, and a download is bounded and verified.
use Prim.Native.String.{◌++◌ as ◌<>◌}
use linux_cmnd.Prelude.{
  ℕ, ap, ◌∙◌, ==_iff, str_eq, leb, ◌&&◌, all, drop, Option, none, some, zero, suc, ◌+◌, ◌≤◌, ◌≡◌,
  refl, ◌⊎◌, inl, inr, String, Bool, true, false, not, ◌||◌, List, [], ◌∷◌, ◌++◌, arith, ltb, All,
  length, Bool-cases, eq_iff,
}
use linux_cmnd.Prelude.Chars.{Text, codes, text_eq, text_eq_iff, starts_with, is_digit}
use linux_cmnd.CloneExport.Multipart.Exact.{starts_with-eq}
use linux_cmnd.Result.{Result, ok, refuse-eq-ok, >>=-eq-ok, Result-cases}
use linux_cmnd.Updates.Release.{Asset}
use linux_cmnd.Updates.Fetch.{
  Net, Url, asset_host, is_none, https_port, untrusted, asset_number, Request, Requests, Chunk,
  Answer, opened, http_error, broken, api, check_redirect, redirects, redirected, react,
  is_endpoint, attempt, read_body, fetch, verify_asset, download_asset,
}

-- HTTPS at a host that serves release assets, at its port, without a user.
pub record IsTrusted (parsed : Url) : Type 0 where
  pub secure : parsed.scheme ≡ "https"
  pub host :
      (parsed.hostname ≡ some "release-assets.githubusercontent.com")
      ⊎ (parsed.hostname ≡ some "objects.githubusercontent.com")
  pub no_username : parsed.username ≡ none
  pub no_password : parsed.password ≡ none
  pub https : (parsed.port ≡ ok none) ⊎ (parsed.port ≡ ok (some 443))

asset_host-some :
    (o : Option String)
    → asset_host o ≡ true
    → (o ≡ some "release-assets.githubusercontent.com") ⊎ (o ≡ some "objects.githubusercontent.com")
asset_host-some none h = absurd (cc h)
asset_host-some (some host) h =
    elim (Bool-cases (str_eq host "release-assets.githubusercontent.com")) [
      | inl e ↦ inl (ap some ((eq_iff host "release-assets.githubusercontent.com").0 e))
      | inr e ↦ inr (ap some ((eq_iff host "objects.githubusercontent.com").0 (ground arith)))
    ]

is_none-eq : (o : Option String) → is_none o ≡ true → o ≡ none
is_none-eq none h = refl
is_none-eq (some s) h = absurd (cc h)

https_port-eq : (o : Option ℕ) → https_port o ≡ true → (o ≡ none) ⊎ (o ≡ some 443)
https_port-eq none h = inl refl
https_port-eq (some p) h = inr (ap some ((==_iff p 443).0 h))

four :
    (a b c d : Bool)
    → not (a && b && c && d) ≡ false
    → (a ≡ true) × (b ≡ true) × (c ≡ true) × (d ≡ true)
four a b c d h = ground arith

not-eq_false : (b : Bool) → not b ≡ false → b ≡ true
not-eq_false b h = ground arith

check_redirect-IsTrusted : (parsed : Url) → check_redirect parsed ≡ ok tt → IsTrusted parsed
unfolding check_redirect
check_redirect-IsTrusted parsed h =
    let (first, h1) =
      refuse-eq-ok
        (not (
          str_eq parsed.scheme "https"
          && asset_host parsed.hostname
          && is_none parsed.username
          && is_none parsed.password))
        untrusted _ h in
    let (port, numbered, h2) = >>=-eq-ok parsed.port _ h1 in
    let parts =
      four (str_eq parsed.scheme "https") (asset_host parsed.hostname) (is_none parsed.username)
        (is_none parsed.password) first in
    let good : https_port port ≡ true = ground arith in
    record {
      secure = (eq_iff _ _).0 parts.0;
      host = asset_host-some parsed.hostname parts.1;
      no_username = is_none-eq parsed.username parts.2;
      no_password = is_none-eq parsed.password parts.3;
      https = elim (https_port-eq port good) [
        | inl e ↦ inl (numbered ∙ ap ok e)
        | inr e ↦ inr (numbered ∙ ap ok e)
      ];
    }

-- A digit that is not 0, and digits.
abbrev pub IsNumber : Text → Type 0
IsNumber [] = ⊥
IsNumber (c ∷ cs) = (b'1' ≤ c) × (c ≤ b'9') × (all is_digit cs ≡ true)

-- The list of the releases, or one asset.
abbrev pub IsEndpoint : String → Type 0
IsEndpoint path =
    (codes path ≡ codes "/releases?per_page=100")
    ⊎ ((number : Text) × (codes path ≡ codes "/releases/assets/" ++ number) × IsNumber number)

asset_number-IsNumber : (t : Text) → asset_number t ≡ true → IsNumber t
asset_number-IsNumber [] h = cc h
asset_number-IsNumber (c ∷ cs) h = three (all is_digit cs) h
  where
    three :
        (b : Bool) → (leb b'1' c && leb c b'9' && b) ≡ true → (b'1' ≤ c) × (c ≤ b'9') × (b ≡ true)
    three b h = ground arith

is_endpoint-IsEndpoint : (path : String) → is_endpoint path ≡ true → IsEndpoint path
unfolding is_endpoint
is_endpoint-IsEndpoint path h =
    elim (Bool-cases (text_eq (codes path) (codes "/releases?per_page=100"))) [
      | inl e ↦ inl ((text_eq_iff _ _).0 e)
      | inr e ↦
          let both =
            second _ (starts_with (codes path) (codes "/releases/assets/"))
              (asset_number (drop 17 (codes path))) e h in
          inr (
            drop 17 (codes path),
            starts_with-eq (codes path) (codes "/releases/assets/") both.0,
            asset_number-IsNumber _ both.1,
          )
    ]
  where
    second : (a b c : Bool) → a ≡ false → (a || (b && c)) ≡ true → (b ≡ true) × (c ≡ true)
    second a b c e h = ground arith

module _ (net : Net) (path : String) where
  -- A request to the endpoint of the API, or one with no credential to a trusted host.
  abbrev pub IsSafe : Request → Type 0
  IsSafe r =
      ((r.url ≡ "https://api.github.com/repos/MusicCityTelecom/linux-cmnd" <> path)
        × IsEndpoint path)
      ⊎ ((r.authorized ≡ false) × IsTrusted (net.urlsplit r.url))

  -- Whatever was requested before, each new request is safe, and there are at most `rounds`.
  abbrev pub Stays : ℕ → Requests → Result (List Chunk) × Requests → Type 0
  Stays rounds made (r, after) = All IsSafe after × (length after ≤ length made + rounds)

  redirected_safe :
      (rounds : ℕ) (next : Request → Requests → Result (List Chunk) × Requests) (made : Requests)
      (location : String)
      → ((r : Request) → IsSafe r → Stays rounds made (next r made))
      → All IsSafe made
      → Stays rounds made (redirected net next made location)
  unfolding redirected
  redirected_safe rounds next made location k h =
      let target : Request = record { url = location; authorized = false } in
      elim (Result-cases (check_redirect (net.urlsplit location))) [
        | inl (_, good) ↦
            rw (good, redirected) (k target (inr (refl, check_redirect-IsTrusted _ good)))
        | inr (e, bad) ↦ rw (bad, redirected) (h, omega arith)
      ]

  react_safe :
      (rounds : ℕ) (binary : Bool) (next : Request → Requests → Result (List Chunk) × Requests)
      (made : Requests) (a : Answer)
      → ((r : Request) → IsSafe r → Stays rounds made (next r made))
      → All IsSafe made
      → Stays rounds made (react net binary next made a)
  unfolding react
  react_safe rounds binary next made (opened chunks) k h = (h, omega arith)
  react_safe rounds binary next made (broken e) k h = (h, omega arith)
  react_safe rounds binary next made (http_error status location) k h =
      elim (Bool-cases (not binary || not (redirects status))) [
        | inl stop ↦ rw stop (h, omega arith)
        | inr go ↦ rw go (redirected_safe rounds next made location k h)
      ]

  attempt_safe :
      (rounds : ℕ) (binary : Bool) (r : Request) (made : Requests)
      → IsSafe r
      → All IsSafe made
      → Stays rounds made (attempt net rounds binary r made)
  unfolding attempt
  attempt_safe zero binary r made s h = (h, omega arith)
  attempt_safe (suc rounds) binary r made s h =
      let tail =
        react_safe rounds binary (attempt net rounds binary) (r ∷ made) (net.answer made r)
          (λ q p. attempt_safe rounds binary q (r ∷ made) p (s, h)) (s, h) in
      (tail.0, omega arith)

  -- However the servers answer, `fetch` makes at most five requests. Each of them is for the list of
  -- the releases or a numbered asset in the API of the repository, or goes without the credential
  -- and without a user, over HTTPS at its port, to one of the two hosts of release assets.
  pub fetch-IsSafe :
      (token binary : Bool) (limit : ℕ) (made : Requests)
      → All IsSafe made
      → All IsSafe (fetch net path token binary limit made).1
        × (length (fetch net path token binary limit made).1 ≤ length made + 5)
  unfolding fetch
  fetch-IsSafe token binary limit made h = elim (Bool-cases (is_endpoint path)) [
    | inl good ↦ rw good (
        attempt_safe 5 binary (record { url = api <> path; authorized = token }) made
          (inl (refl, is_endpoint-IsEndpoint path good)) h)
    | inr bad ↦ rw bad (h, omega arith)
  ]

read_body_bound :
    (limit : ℕ) (acc : Text) (chunks : List Chunk) (body : Text)
    → length acc ≤ limit
    → read_body limit acc chunks ≡ ok body
    → length body ≤ limit
unfolding read_body
read_body_bound limit acc [] body small h = ground arith
read_body_bound limit acc (chunk ∷ rest) body small h =
    elim (Bool-cases (ltb limit (length (acc ++ chunk.payload)) || chunk.late)) [
      | inl stop ↦ absurd (cc (rw (stop, read_body) at h))
      | inr go ↦
          read_body_bound limit (acc ++ chunk.payload) rest body (ground arith)
            (rw (go, read_body) at h)
    ]

fetch_bound :
    (net : Net) (path : String) (token binary : Bool) (limit : ℕ) (made : Requests) (body : Text)
    → (fetch net path token binary limit made).0 ≡ ok body
    → length body ≤ limit
unfolding fetch
fetch_bound net path token binary limit made body h = elim (Bool-cases (is_endpoint path)) [
  | inl good ↦
      let opening = attempt net 5 binary (record { url = api <> path; authorized = token }) made in
      let (chunks, _, read) = >>=-eq-ok opening.0 (read_body limit []) (rw (good, fetch) at h) in
      read_body_bound limit [] chunks body (omega arith) read
  | inr bad ↦ absurd (cc (rw (bad, fetch) at h))
]

verified :
    (net : Net) (asset : Asset) (content body : Text)
    → verify_asset net asset content ≡ ok body
    → (content ≡ body)
      × (length body ≡ asset.size)
      × ("sha256:" <> net.sha256_hex body ≡ asset.digest)
unfolding verify_asset
verified net asset content body h =
    let same : content ≡ body = ground arith in
    let size : length content ≡ asset.size = ground arith in
    let digest : "sha256:" <> net.sha256_hex content ≡ asset.digest =
      (eq_iff _ _).0 (ground arith) in
    (same, rw (← same) size, rw (← same) digest)

-- A download that succeeds has the size and the SHA-256 digest of the release, and is no longer
-- than the limit.
pub download_asset_verified :
    (net : Net) (asset : Asset) (path : String) (token : Bool) (limit : ℕ) (made : Requests)
    (body : Text)
    → (download_asset net asset path token limit made).0 ≡ ok body
    → (length body ≡ asset.size)
      × ("sha256:" <> net.sha256_hex body ≡ asset.digest)
      × (length body ≤ limit)
unfolding download_asset
download_asset_verified net asset path token limit made body h =
    let (content, got, check) =
      >>=-eq-ok (fetch net path token true limit made).0 (verify_asset net asset) h in
    let found = verified net asset content body check in
    (found.1, found.2, rw found.0 at (fetch_bound net path token true limit made content got))
