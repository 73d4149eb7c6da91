-- ===== src/CloneExport/Receive/Steady.antt =====
-- What the handler of an upload may change, in src/cmnd_linux/clone_export.py.
use linux_cmnd.Prelude.{
  ℕ, ◌+◌, ◌≤◌, ◌≡◌, ◌⊎◌, inl, inr, Option, some, none, refl, ap, sym, subst, ◌∙◌, false, not, ◌&&◌,
  ◌||◌, List, [], ◌∷◌, ◌++◌, arith, ltb, leb, All,
}
use linux_cmnd.Result.{Error, Result, ok, err, value_error}
use linux_cmnd.Result.Chain.{Ensures, Ensures-ok, Ensures-err, Ensures-cases}
use linux_cmnd.Exec.{pure, modify, lift, ◌>>=◌}
use linux_cmnd.Exec.Triple.{
  Triple, Triple-pure, Triple-lift, Triple-get, Triple-modify, Triple-bind, Triple-refuse,
}
use linux_cmnd.Prelude.Chars.{Text}
use linux_cmnd.Json.{ℤ, pos, negsuc}
use linux_cmnd.Config.Types.{IpLibrary}
use linux_cmnd.CloneExport.Received.{Received, ReceiveLibrary, extract_files}
use linux_cmnd.CloneExport.Received.Files.{IsAccepted, extract_files-All}
use linux_cmnd.CloneExport.Receive.{
  ReceiveState, Upload, Status, receive_body, finished, received, rejected, forbidden, class_name,
  reject, accept, allowed_size, single_length, add_bytes, add_files, add_failure, max_upload,
}

-- A size that the upload declares, within the limit of one upload and the budget.
pub record IsDeclared (r : Upload) (s : ReceiveState) (size : ℕ) : Type 0 where
  pub declared : r.content_lengths ≡ ok (pos size) ∷ []
  pub some_bytes : 1 ≤ size
  pub few : size ≤ 1572864000
  pub within : s.total_bytes + size ≤ s.max_bytes

module _ (lib : ReceiveLibrary) where
  -- The files in the body of the size that the loop reads.
  pub record AreFiles (r : Upload) (size : ℕ) (new : List Received) : Type 0 where
    pub body : Text
    pub read : receive_body r.reader size size [] ≡ some (ok body)
    pub extracted : extract_files lib r.content_type body ≡ ok new

  -- An upload has been counted, and its files were taken, or not yet.
  pub record IsCounted (r : Upload) (s : ReceiveState) (size : ℕ) (new : List Received)
      : Type 0 where
    pub of_upload : IsDeclared r s size
    pub taken : (new ≡ []) ⊎ AreFiles r size new

  -- What an upload may change: more bytes within the budget, and more files that were accepted.
  pub record Progress (r : Upload) (s t : ReceiveState) : Type 0 where
    pub size : ℕ
    pub new : List Received
    pub same_target : t.target ≡ s.target
    pub same_path : t.path ≡ s.path
    pub same_budget : t.max_bytes ≡ s.max_bytes
    pub grows : t.total_bytes ≡ s.total_bytes + size
    pub within : s.total_bytes ≤ s.max_bytes → t.total_bytes ≤ t.max_bytes
    pub extends : t.files ≡ s.files ++ new
    pub sound : All (IsAccepted lib) new
    pub account : ((size ≡ 0) × (new ≡ [])) ⊎ IsCounted r s size new

  -- A success has taken the files of the upload.
  pub record IsTaken (r : Upload) (s t : ReceiveState) (p : Progress r s t) : Type 0 where
    pub of_upload : IsDeclared r s p.size
    pub of_body : AreFiles r p.size p.new
    pub no_failure : t.failures ≡ s.failures

  abbrev pub Handled : Upload → ReceiveState → Status → ReceiveState → Type 0
  Handled r s forbidden t = t ≡ s
  Handled r s received t = (p : Progress r s t) × IsTaken r s t p
  Handled r s rejected t =
      Progress r s t × ((e : Error) × (t.failures ≡ s.failures ++ class_name e ∷ []))

  abbrev pub Steady : Upload → ReceiveState → ReceiveState → Type 0
  Steady r s t = Progress r s t × (t.failures ≡ s.failures)

  append_nil : {A : Type 0} (xs : List A) → xs ≡ xs ++ []
  append_nil [] = refl
  append_nil (x ∷ xs) = ap (λ l. x ∷ l) (append_nil xs)

  pub still : (r : Upload) (s : ReceiveState) → Steady r s s
  still r s = (
    record {
      size = 0;
      new = [];
      same_target = refl;
      same_path = refl;
      same_budget = refl;
      grows = omega arith;
      within = λ h. h;
      extends = append_nil s.files;
      sound = tt;
      account = inl (refl, refl);
    },
    refl,
  )

  counted : (r : Upload) (s : ReceiveState) (n : ℕ) → IsDeclared r s n → Steady r s (add_bytes n s)
  counted r s n h = (
    record {
      size = n;
      new = [];
      same_target = refl;
      same_path = refl;
      same_budget = refl;
      grows = refl;
      within = λ _. h.within;
      extends = append_nil s.files;
      sound = tt;
      account = inr (record { of_upload = h; taken = inl refl });
    },
    refl,
  )

  taken :
      (r : Upload) (s : ReceiveState) (n : ℕ) (files : List Received)
      → IsDeclared r s n
      → AreFiles r n files
      → Handled r s received (add_files files (add_bytes n s))
  taken r s n files h k = (
    record {
      size = n;
      new = files;
      same_target = refl;
      same_path = refl;
      same_budget = refl;
      grows = refl;
      within = λ _. h.within;
      extends = refl;
      sound = (extract_files-All lib r.content_type k.body).holds files k.extracted;
      account = inr (record { of_upload = h; taken = inr k });
    },
    record { of_upload = h; of_body = k; no_failure = refl },
  )

  single_length-inv :
      (sizes : List (Result ℤ)) (z : ℤ) → single_length sizes ≡ ok z → sizes ≡ ok z ∷ []
  single_length-inv [] z h = absurd (cc h)
  single_length-inv (size ∷ []) z h = ap (λ x. x ∷ []) h
  single_length-inv (size ∷ other ∷ rest) z h = absurd (cc h)

  finished-inv :
      (o : Option (Result Text)) (body : Text) → finished o ≡ ok body → o ≡ some (ok body)
  finished-inv none body h = absurd (cc h)
  finished-inv (some x) body h = ap some h

  record IsAllowed (s : ReceiveState) (z : ℤ) (n : ℕ) : Type 0 where
    pub same : z ≡ pos n
    pub some_bytes : 1 ≤ n
    pub few : n ≤ 1572864000
    pub within : s.total_bytes + n ≤ s.max_bytes

  allowed_size-IsAllowed : (s : ReceiveState) (z : ℤ) → Ensures (IsAllowed s z) (allowed_size s z)
  unfolding allowed_size
  allowed_size-IsAllowed s (negsuc n) = Ensures-err _
  allowed_size-IsAllowed s (pos n) =
      Ensures-cases (not (leb 1 n && leb n max_upload) || ltb s.max_bytes (s.total_bytes + n))
        (err (value_error "upload byte limit exceeded")) (ok n) (λ _. Ensures-err _)
        λ h.
          let k = allow s.total_bytes s.max_bytes h in
          Ensures-ok n (record { same = refl; some_bytes = k.0; few = k.1.0; within = k.1.1 })
    where
      allow :
          (total most : ℕ)
          → (not (leb 1 n && leb n max_upload) || ltb most (total + n)) ≡ false
          → (1 ≤ n) × ((n ≤ 1572864000) × (total + n ≤ most))
      allow total most h = ground arith

  module _ (ips : IpLibrary) (r : Upload) (s : ReceiveState) where
    lifted :
        {A : Type 0} {M : ReceiveState → Type 0} (x : Result A)
        → ((t : ReceiveState) → M t → Steady r s t)
        → Triple M (lift x) (λ a t. M t × (x ≡ ok a)) (λ e t. Steady r s t)
    lifted x w = Triple-lift x (λ t a e h. (h, e)) (λ t e _ h. w t h)

    -- The upload is the declared one, and has been counted.
    abbrev Counted : ℕ → ReceiveState → Type 0
    Counted n t = IsDeclared r s n × (t ≡ add_bytes n s)

    unchanged : (t : ReceiveState) → t ≡ s → Steady r s t
    unchanged t e = subst (Steady r s) (sym e) (still r s)

    Counted-Steady : (n : ℕ) (t : ReceiveState) → Counted n t → Steady r s t
    Counted-Steady n t (h, e) = subst (Steady r s) (sym e) (counted r s n h)

    received-Steady : (t : ReceiveState) → Handled r s received t → Steady r s t
    received-Steady t (p, h) = (p, h.no_failure)

    pub accept-Steady :
        Triple (λ t. t ≡ s) (accept ips lib r) (λ a t. Handled r s a t) (λ _ t. Steady r s t)
    accept-Steady =
        unfold accept in
        Triple-bind _ _ (λ _ t. t ≡ s) (Triple-refuse _ _ (λ t _ h. unchanged t h) (λ t _ h. h))
          λ _.
            Triple-bind _ _ (λ z t. (t ≡ s) × (single_length r.content_lengths ≡ ok z))
              (lifted _ unchanged)
              λ declared.
                Triple-bind _ _
                  (λ a t. ((t ≡ s) × (single_length r.content_lengths ≡ ok declared)) × (t ≡ a))
                  Triple-get
                  λ a.
                    Triple-bind _ _
                      (λ n t.
                        (((t ≡ s) × (single_length r.content_lengths ≡ ok declared)) × (t ≡ a))
                        × (allowed_size a declared ≡ ok n))
                      (lifted _ (λ t h. unchanged t h.0.0))
                      λ n.
                        Triple-bind _ _ (λ _ t. Counted n t)
                          (Triple-modify (add_bytes n) (λ t h. (
                            declares a declared n (sym h.0.0.0 ∙ h.0.1) h.0.0.1 h.1,
                            ap (add_bytes n) h.0.0.0,
                          )))
                          λ _.
                            Triple-bind _ _
                              (λ body t.
                                Counted n t × (finished (receive_body r.reader n n []) ≡ ok body))
                              (lifted _ (Counted-Steady n))
                              λ body.
                                Triple-bind _ _
                                  (λ files t.
                                    (Counted n t
                                      × (finished (receive_body r.reader n n []) ≡ ok body))
                                    × (extract_files lib r.content_type body ≡ ok files))
                                  (lifted _ (λ t h. Counted-Steady n t h.0))
                                  λ files.
                                    Triple-bind _ _ (λ _ t. Handled r s received t)
                                      (Triple-modify (add_files files)
                                        (λ t h. takes n body files t h.0.0 h.0.1 h.1))
                                      λ _.
                                        Triple-bind _ _ (λ _ t. Handled r s received t)
                                          (Triple-lift r.answered (λ t a _ h. h)
                                            (λ t e _ h. received-Steady t h))
                                          λ _. Triple-pure received (λ t h. h)
      where
        declares :
            (a : ReceiveState) (z : ℤ) (n : ℕ)
            → s ≡ a
            → single_length r.content_lengths ≡ ok z
            → allowed_size a z ≡ ok n
            → IsDeclared r s n
        declares a z n e k l =
            let h =
              (allowed_size-IsAllowed s z).holds n
                (subst (λ u. allowed_size u z ≡ ok n) (sym e) l) in
            record {
              declared = single_length-inv r.content_lengths z k ∙ ap (λ x. ok x ∷ []) h.same;
              some_bytes = h.some_bytes;
              few = h.few;
              within = h.within;
            }

        takes :
            (n : ℕ) (body : Text) (files : List Received) (t : ReceiveState)
            → Counted n t
            → finished (receive_body r.reader n n []) ≡ ok body
            → extract_files lib r.content_type body ≡ ok files
            → Handled r s received (add_files files t)
        takes n body files t (h, e) k l =
            subst (λ u. Handled r s received (add_files files u)) (sym e)
              (taken r s n files h
                (record { body = body; read = finished-inv _ body k; extracted = l }))

    pub reject-Handled :
        (e : Error)
        → Triple (λ t. Steady r s t) (reject ips lib e) (λ a t. Handled r s a t) (λ _ t. t ≡ s)
    unfolding pure modify ◌>>=◌
    reject-Handled e = record {
      run = λ t h. (failed t h.0, (e, ap (λ l. l ++ class_name e ∷ []) h.1));
    }
      where
        failed : (t : ReceiveState) → Progress r s t → Progress r s (add_failure e t)
        failed t p = record {
          size = p.size;
          new = p.new;
          same_target = p.same_target;
          same_path = p.same_path;
          same_budget = p.same_budget;
          grows = p.grows;
          within = p.within;
          extends = p.extends;
          sound = p.sound;
          account = p.account;
        }
