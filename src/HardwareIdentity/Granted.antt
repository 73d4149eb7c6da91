-- ===== src/HardwareIdentity/Granted.antt =====
-- What the file of the serial number is after `grant_access` (src/cmnd_linux/hardware_identity.py).
use linux_cmnd.Prelude.{
  ℕ, ◌≡◌, ◌⊎◌, inl, inr, refl, ap, sym, subst, ◌∙◌, String, Bool, true, false, not, ◌||◌, Option,
  none, some, List, [], ◌∷◌, arith, ◌==◌,
}
use linux_cmnd.Result.{Error, Result, ok, err}
use linux_cmnd.Exec.Triple.{
  Triple, Settles, Triple-pure, Triple-lift, Triple-throw, Triple-get, Triple-bind, Triple-refuse,
  Triple-catch, Triple-if, Triple-when, Triple-assume, Triple-weaken,
}
use linux_cmnd.HardwareIdentity.{
  FileStat, FileCall, chown, chmod, SerialFile, HardwareFacts, Access, not_executed, no_serial,
  placeholder, available, changed, is_world_readable, after_call, usable_serial, call, restore_file,
  permit_group, grant_file, grant_access,
}

-- The last call has failed.
abbrev pub HasFailed : List (FileCall × Bool) → Type 0
HasFailed ((c, false) ∷ calls) = Unit
HasFailed _ = ⊥

-- Behind a call that has failed, the one that gives the file back to its owner and group has failed
-- too, or it has worked and the one that gives back the permissions has failed.
abbrev pub IsStopped : FileStat → List (FileCall × Bool) → Type 0
IsStopped before ((c, false) ∷ (d, false) ∷ calls) = c ≡ chown before.uid before.gid
IsStopped before ((c, false) ∷ (d, true) ∷ (e, false) ∷ calls) =
    (c ≡ chmod before.permissions) × (d ≡ chown before.uid before.gid)
IsStopped before _ = ⊥

-- The owner, the group and the permissions are those of before, or a call on the way back failed.
abbrev pub IsRestored : FileStat → SerialFile → Type 0
IsRestored before f = (f.stat ≡ before) ⊎ IsStopped before f.calls

-- Readable as before, or for the group alone.
abbrev pub IsReadable : FileStat → Result ℕ → FileStat → Type 0
IsReadable before group after =
    ((after ≡ before) × (is_world_readable before ≡ true))
    ⊎ ((g : ℕ) × (group ≡ ok g) × (after ≡ record { uid = 0; gid = g; permissions = 288 }))

module _ (facts : HardwareFacts) (before : FileStat) where
  call_Triple :
      (c : FileCall) (P : FileStat → Type 0) (Q : FileStat → Type 0)
      → ((s : FileStat) → P s → Q (changed c s))
      → Triple (λ f. P f.stat) (call facts c) (λ _ f. Q f.stat) (λ _ f. HasFailed f.calls)
  unfolding call
  call_Triple c P Q h = record { run = λ f p. after f p (facts.answers f.calls c) }
    where
      after :
          (f : SerialFile)
          → P f.stat
          → (r : Result (Unit {0}))
          → Settles
              (λ _ t. Q t.stat)
              (λ _ t. HasFailed t.calls)
              (after_call c r f).0
              (after_call c r f).1
      after f p (ok u) = h f.stat p
      after f p (err e) = tt

  -- What has been set so far.
  abbrev Owned : ℕ → ℕ → FileStat → Type 0
  Owned uid gid s = (s.uid ≡ uid) × (s.gid ≡ gid)

  -- A call, with the calls that stand before it.
  restoring :
      (c : FileCall) (P Q R : SerialFile → Type 0)
      → ((f : SerialFile)
          → P f
          → Q (record { stat = changed c f.stat; calls = (c, true) ∷ f.calls }))
      → ((f : SerialFile) → P f → R (record { stat = f.stat; calls = (c, false) ∷ f.calls }))
      → Triple P (call facts c) (λ _ f. Q f) (λ _ f. R f)
  unfolding call
  restoring c P Q R q k = record { run = λ f p. after f p (facts.answers f.calls c) }
    where
      after :
          (f : SerialFile)
          → P f
          → (r : Result (Unit {0}))
          → Settles (λ _ t. Q t) (λ _ t. R t) (after_call c r f).0 (after_call c r f).1
      after f p (ok u) = q f p
      after f p (err e) = k f p

  -- The owner and the group have been given back, behind a call that has failed.
  abbrev HasReturned : List (FileCall × Bool) → Type 0
  HasReturned ((c, true) ∷ calls) = (c ≡ chown before.uid before.gid) × HasFailed calls
  HasReturned _ = ⊥

  owner_stops :
      (calls : List (FileCall × Bool))
      → HasFailed calls
      → IsStopped before ((chown before.uid before.gid, false) ∷ calls)
  owner_stops [] h = absurd h
  owner_stops ((c, true) ∷ calls) h = absurd h
  owner_stops ((c, false) ∷ calls) h = refl

  mode_stops :
      (calls : List (FileCall × Bool))
      → HasReturned calls
      → IsStopped before ((chmod before.permissions, false) ∷ calls)
  mode_stops [] h = absurd h
  mode_stops ((c, false) ∷ calls) h = absurd h
  mode_stops ((c, true) ∷ []) h = absurd h.1
  mode_stops ((c, true) ∷ (d, true) ∷ calls) h = absurd h.1
  mode_stops ((c, true) ∷ (d, false) ∷ calls) h = (refl, h.0)

  restore_file-IsRestored :
      (e : Error) (Q : Unit {0} → SerialFile → Type 0)
      → Triple (λ f. HasFailed f.calls) (restore_file facts before e) Q (λ _ f. IsRestored before f)
  restore_file-IsRestored e Q =
      unfold restore_file in
      Triple-bind _ _ (λ _ f. Owned before.uid before.gid f.stat × HasReturned f.calls)
        (restoring (chown before.uid before.gid) (λ f. HasFailed f.calls)
          (λ f. Owned before.uid before.gid f.stat × HasReturned f.calls) (IsRestored before)
          (λ f h. ((refl, refl), (refl, h))) (λ f h. inr (owner_stops f.calls h)))
        λ _.
          Triple-bind _ _ (λ _ f. f.stat ≡ before)
            (restoring (chmod before.permissions)
              (λ f. Owned before.uid before.gid f.stat × HasReturned f.calls) (λ f. f.stat ≡ before)
              (IsRestored before) (λ f h. owned_as f.stat h.0)
              (λ f h. inr (mode_stops f.calls h.1)))
            λ _. Triple-throw e (λ f h. inl h)
    where
      owned_as :
          (s : FileStat)
          → Owned before.uid before.gid s
          → changed (chmod before.permissions) s ≡ before
      owned_as s (u, g) =
          ap (λ n. record { uid = n; gid = s.gid; permissions = before.permissions }) u
          ∙ ap (λ n. record { uid = before.uid; gid = n; permissions = before.permissions }) g

  permit_group-eq :
      (group : ℕ)
      → Triple
          (λ f. f.stat ≡ before)
          (permit_group facts group before)
          (λ _ f. f.stat ≡ record { uid = 0; gid = group; permissions = 288 })
          (λ _ f. IsRestored before f)
  permit_group-eq group =
      unfold permit_group in
      Triple-catch _ _ (λ _ f. HasFailed f.calls)
        (Triple-bind _ _ (λ _ f. Owned 0 group f.stat)
          (Triple-weaken _ (λ f h. tt) (λ _ f h. h) (λ _ f h. h)
            (call_Triple (chown 0 group) (λ s. Unit {0}) (Owned 0 group) (λ s h. (refl, refl))))
          λ _.
            Triple-weaken _ (λ f h. h) (λ _ f h. h) (λ _ f h. h)
              (call_Triple (chmod 288) (Owned 0 group)
                (λ s. s ≡ record { uid = 0; gid = group; permissions = 288 })
                (λ s h. owned_by s h)))
        λ e. restore_file-IsRestored e _
    where
      owned_by :
          (s : FileStat)
          → Owned 0 group s
          → changed (chmod 288) s ≡ record { uid = 0; gid = group; permissions = 288 }
      owned_by s (u, g) =
          ap (λ n. record { uid = n; gid = s.gid; permissions = 288 }) u
          ∙ ap (λ n. record { uid = 0; gid = n; permissions = 288 }) g

  -- Access is reported only for a usable serial number.
  abbrev pub IsGranted : Access → SerialFile → Type 0
  IsGranted available f =
      (usable_serial facts.lower facts.value ≡ true)
      × (before.uid ≡ 0)
      × IsReadable before facts.group f.stat
  IsGranted _ f = f.stat ≡ before

  grant_file-IsGranted :
      (group : ℕ) (path : Option String)
      → facts.group ≡ ok group
      → Triple
          (λ f. f.stat ≡ before)
          (grant_file facts group path)
          (λ a f. IsGranted a f)
          (λ _ f. IsRestored before f)
  grant_file-IsGranted group none e = Triple-pure no_serial (λ f h. h)
  grant_file-IsGranted group (some path) e =
      Triple-bind _ _ (λ _ f. f.stat ≡ before) (Triple-refuse _ _ (λ f _ h. inl h) (λ f _ h. h))
        λ _.
          Triple-bind _ _ (λ a f. (f.stat ≡ before) × (f ≡ a)) Triple-get
            λ a.
              Triple-bind _ _ (λ _ f. (f.stat ≡ before) × ((a.stat ≡ before) × (a.stat.uid ≡ 0)))
                (Triple-refuse _ _ (λ f _ h. inl h.0)
                  (λ f r h. (
                    h.0,
                    (ap (λ u. u.stat) (sym h.1) ∙ h.0, root_owned facts.is_regular a.stat.uid r),
                  )))
                λ _.
                  Triple-assume _ (λ f h. h.1)
                    λ known.
                      Triple-weaken _ (λ f h. h.0) (λ a f h. h) (λ e f h. h)
                        (Triple-if (usable_serial facts.lower facts.value) _ _
                          (λ usable.
                            Triple-bind _ _ (λ _ f. IsReadable before facts.group f.stat)
                              (Triple-when (not (is_world_readable a.stat)) _
                                (λ _.
                                  Triple-weaken _ (λ f h. h) (λ _ f h. inr (group, e, h))
                                    (λ _ f h. h)
                                    (subst
                                      (λ b.
                                        Triple (λ f. f.stat ≡ before) (permit_group facts group b)
                                          (λ _ f.
                                            f.stat
                                            ≡ record { uid = 0; gid = group; permissions = 288 })
                                          (λ _ f. IsRestored before f))
                                      (sym known.0) (permit_group-eq group)))
                                (λ f r h. inl (
                                  h,
                                  subst (λ b. is_world_readable b ≡ true) known.0 (affirmed _ r),
                                )))
                              λ _.
                                Triple-pure available
                                  (λ f h. (usable, ap (λ b. b.uid) (sym known.0) ∙ known.1, h)))
                          (λ _. Triple-pure placeholder (λ f h. h)))
    where
      affirmed : (b : Bool) → not b ≡ false → b ≡ true
      affirmed b h = ground arith

      root_owned : (r : Bool) (uid : ℕ) → (not r || not (uid == 0)) ≡ false → uid ≡ 0
      root_owned r uid h = ground arith

  -- Access is reported only for a usable serial number in a file of root, which is then readable for
  -- everybody as before, or owned by root and readable for the group alone. Every other report leaves
  -- the file as it was. So does every exception, unless the last calls are one that failed and, on the
  -- way back, the failed return of the owner, or of the permissions behind that of the owner.
  pub grant_access-IsGranted :
      (execute : Bool) (f : SerialFile)
      → f.stat ≡ before
      → Settles
          (λ a t. IsGranted a t)
          (λ _ t. IsRestored before t)
          (grant_access facts execute f).0
          (grant_access facts execute f).1
  grant_access-IsGranted execute f h = whole.run f h
    where
      whole :
          Triple
            (λ t. t.stat ≡ before)
            (grant_access facts execute)
            (λ a t. IsGranted a t)
            (λ _ t. IsRestored before t)
      whole =
          unfold grant_access in
          Triple-if execute _ _
            (λ _.
              Triple-bind _ _ (λ _ t. t.stat ≡ before)
                (Triple-refuse _ _ (λ t _ k. inl k) (λ t _ k. k))
                λ _.
                  Triple-bind _ _ (λ g t. (t.stat ≡ before) × (facts.group ≡ ok g))
                    (Triple-lift _ (λ t g e k. (k, e)) (λ t _ _ k. inl k))
                    λ g.
                      Triple-assume _ (λ t k. k.1)
                        λ e.
                          Triple-weaken _ (λ t k. k.0) (λ a t k. k) (λ e t k. k)
                            (Triple-bind _ _ (λ _ t. t.stat ≡ before)
                              (Triple-lift _ (λ t _ _ k. k) (λ t _ _ k. inl k))
                              λ path. grant_file-IsGranted g path e))
            (λ _. Triple-pure not_executed (λ t k. k))
