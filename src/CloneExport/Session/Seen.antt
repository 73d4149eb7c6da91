-- ===== src/CloneExport/Session/Seen.antt =====
-- What the receiver holds while the export runs: what the report of the export in src/cmnd_linux/clone_export.py says.
use mathlib.Core.List.{append_assoc}
use linux_cmnd.Prelude.{
  ◌≡◌, refl, ap, sym, subst, ◌∙◌, String, Bool, true, false, not, ◌&&◌, List, [], ◌∷◌, ◌++◌, arith,
  all, any, All, Any, one_of, inl, inr, Option, some, none, &&-eq_true, ◌||◌,
}
use linux_cmnd.Result.{Error, Result, ok, err}
use linux_cmnd.Exec.Triple.{
  Triple, Settles, Triple-pure, Triple-get, Triple-modify, Triple-bind, Triple-if, Triple-weaken,
}
use linux_cmnd.CloneExport.Received.{Received}
use linux_cmnd.CloneExport.Receive.{
  ReceiveState, Upload, Status, received, rejected, forbidden, do_post,
}
use linux_cmnd.CloneExport.Receive.Steady.{Progress, Handled}
use linux_cmnd.CloneExport.Receive.Bounded.{IsBounded, do_post-IsBounded, do_post-IsHandled}
use linux_cmnd.CloneExport.Session.{
  Surroundings, Session, Report, handle_all, wait, conclude, is_failed, has_all, is_crc_valid,
}

any-Any : {A : Type 0} (p : A → Bool) (xs : List A) → any p xs ≡ true → Any (λ x. p x ≡ true) xs
any-Any p [] h = absurd (cc h)
any-Any p (x ∷ xs) h = either (p x) refl h (any-Any p xs)
  where
    either :
        (b : Bool)
        → p x ≡ b
        → (b || any p xs) ≡ true
        → (any p xs ≡ true → Any (λ y. p y ≡ true) xs)
        → Any (λ y. p y ≡ true) (x ∷ xs)
    either true e h k = inl e
    either false e h k = inr (k h)

items_found :
    (files : List Received) (items : List String)
    → all (λ i. any (λ f. one_of i f.identified_items) files) items ≡ true
    → All (λ i. Any (λ f. one_of i f.identified_items ≡ true) files) items
items_found files [] h = tt
items_found files (i ∷ rest) h =
    let both = &&-eq_true (any (λ f. one_of i f.identified_items) files) _ h in
    (any-Any _ files both.0, items_found files rest both.1)

all_intact :
    (files : List Received)
    → all is_crc_valid files ≡ true
    → All (λ f. f.zip_crc_valid ≡ some true) files
all_intact [] h = tt
all_intact (f ∷ rest) h =
    let both = &&-eq_true (is_crc_valid f) _ h in
    (valid f.zip_crc_valid both.0, all_intact rest both.1)
  where
    valid : (o : Option Bool) → (elim o [ none ↦ false | some b ↦ b ]) ≡ true → o ≡ some true
    valid none h = cc
    valid (some b) h = ap some h

has_all_parts :
    (items : List String) (files : List Received)
    → has_all items files ≡ true
    → (all (λ i. any (λ f. one_of i f.identified_items) files) items ≡ true)
      × (all is_crc_valid files ≡ true)
unfolding has_all
has_all_parts items files h =
    &&-eq_true (all (λ i. any (λ f. one_of i f.identified_items) files) items)
      (all is_crc_valid files) h

module _ (w : Surroundings) (items : List String) where
  -- The first files have all items, and passed the CRC test.
  pub record HasSeen (files : List Received) : Type 0 where
    pub seen : List Received
    pub later : List Received
    pub split : files ≡ seen ++ later
    pub all_items : All (λ i. Any (λ f. one_of i f.identified_items ≡ true) seen) items
    pub intact : All (λ f. f.zip_crc_valid ≡ some true) seen

  -- The receiver is within its bounds, and has the items if `completed` says so.
  abbrev pub Holds : Bool → ReceiveState → Type 0
  Holds completed s = IsBounded w.library s × (completed ≡ true → HasSeen s.files)

  append_nil : {A : Type 0} (xs : List A) → xs ≡ xs ++ []
  append_nil [] = refl
  append_nil (x ∷ xs) = ap (λ l. x ∷ l) (append_nil xs)

  more : (xs ys : List Received) → HasSeen xs → HasSeen (xs ++ ys)
  more xs ys h = record {
    seen = h.seen;
    later = h.later ++ ys;
    split = ap (λ l. l ++ ys) h.split ∙ append_assoc h.seen h.later ys;
    all_items = h.all_items;
    intact = h.intact;
  }

  grown :
      (r : Upload) (s t : ReceiveState)
      → Progress w.library r s t
      → HasSeen s.files
      → HasSeen t.files
  grown r s t p h = subst HasSeen (sym p.extends) (more s.files p.new h)

  status_grown :
      (r : Upload) (s t : ReceiveState) (a : Status)
      → Handled w.library r s a t
      → HasSeen s.files
      → HasSeen t.files
  status_grown r s t forbidden e h = subst (λ u. HasSeen u.files) (sym e) h
  status_grown r s t received p h = grown r s t p.0 h
  status_grown r s t rejected p h = grown r s t p.0 h

  do_post-Holds :
      (completed : Bool) (r : Upload) (s : ReceiveState)
      → Holds completed s
      → Holds completed (do_post w.ips w.library r s).1
  do_post-Holds completed r s (b, h) = (
    (do_post-IsBounded w.library w.ips r).kept s b,
    λ c. after (do_post w.ips w.library r s).0 (do_post-IsHandled w.library w.ips r s) (h c),
  )
    where
      after :
          (x : Result Status)
          → Settles
              (λ a t. Handled w.library r s a t)
              (λ _ t. t ≡ s)
              x
              (do_post w.ips w.library r s).1
          → HasSeen s.files
          → HasSeen (do_post w.ips w.library r s).1.files
      after (ok a) k h = status_grown r s _ a k h
      after (err e) k h = subst (λ u. HasSeen u.files) (sym k) h

  -- A report that says completed has seen all items in files that passed the CRC test, with no
  -- failure; its files are those of the receiver, within its bounds.
  pub record IsTrue (report : Report) (s : Session) : Type 0 where
    pub bounded : IsBounded w.library s.receiver
    pub files : report.files ≡ s.receiver.files
    pub failures : report.failures ≡ s.receiver.failures
    pub seen : report.completed ≡ true → HasSeen report.files
    pub faultless : report.completed ≡ true → report.failures ≡ []

  module _ (R : Error → Session → Type 0) where
    pub handle_all-Holds :
        (completed : Bool) (rs : List Upload)
        → Triple
            (λ s. Holds completed s.receiver)
            (handle_all w rs)
            (λ _ s. Holds completed s.receiver)
            R
    unfolding handle_all
    handle_all-Holds completed [] = Triple-pure tt (λ s h. h)
    handle_all-Holds completed (r ∷ rest) =
        Triple-bind _ _ (λ _ s. Holds completed s.receiver)
          (Triple-modify _ (λ s h. do_post-Holds completed r s.receiver h))
          λ _. handle_all-Holds completed rest

    pub wait-Holds :
        (ps : List (List Upload))
        → Triple
            (λ s. Holds false s.receiver)
            (wait w items ps)
            (λ completed s. Holds completed s.receiver)
            R
    unfolding wait
    wait-Holds [] = Triple-pure false (λ s h. h)
    wait-Holds (rs ∷ rest) =
        let later = wait-Holds rest in
        Triple-bind _ _ (λ a s. Holds false s.receiver × (s ≡ a)) Triple-get
          λ a.
            Triple-if (is_failed a.receiver) _ _ (λ _. Triple-pure false (λ s h. h.0))
              λ _.
                Triple-if (has_all items a.receiver.files) _ _
                  (λ c. Triple-pure true (λ s h. (h.0.0, λ _. looked s a h.1 c)))
                  λ _.
                    Triple-bind _ _ (λ _ s. Holds false s.receiver)
                      (Triple-weaken _ (λ s h. h.0) (λ _ s h. h) (λ e s h. h)
                        (handle_all-Holds false rs))
                      λ _. later
      where
        looked :
            (s a : Session)
            → s ≡ a
            → has_all items a.receiver.files ≡ true
            → HasSeen s.receiver.files
        looked s a e c =
            let k =
              has_all_parts items s.receiver.files
                (subst (λ u. has_all items u.receiver.files ≡ true) (sym e) c) in
            record {
              seen = s.receiver.files;
              later = [];
              split = append_nil s.receiver.files;
              all_items = items_found s.receiver.files items k.0;
              intact = all_intact s.receiver.files k.1;
            }

    pub conclude-IsTrue :
        (completed : Bool)
        → Triple (λ s. Holds completed s.receiver) (conclude w completed) IsTrue R
    conclude-IsTrue completed =
        unfold conclude in
        Triple-bind _ _ (λ _ s. Holds completed s.receiver) (handle_all-Holds completed w.closing)
          λ _.
            Triple-bind _ _ (λ a s. Holds completed s.receiver × (s.receiver ≡ a.receiver))
              (Triple-weaken _ (λ s h. h) (λ a s h. (h.0, ap (λ u. u.receiver) h.1)) (λ e s h. h)
                Triple-get)
              λ a.
                Triple-bind _ _ (λ _ s. Holds completed s.receiver × (s.receiver ≡ a.receiver))
                  (Triple-modify _ (λ s h. h)) λ _. Triple-pure _ (λ s h. reported s a h.0 h.1)
      where
        both : (b c : Bool) → (b && not c) ≡ true → (b ≡ true) × (c ≡ false)
        both b c h = ground arith

        no_failures : (s : ReceiveState) → is_failed s ≡ false → s.failures ≡ []
        no_failures s h = none_of s.failures h
          where
            none_of :
                (fs : List String) → (elim fs [ [] ↦ false | f ∷ rest ↦ true ]) ≡ false → fs ≡ []
            none_of [] h = refl
            none_of (f ∷ rest) h = cc

        reported :
            (s a : Session)
            → Holds completed s.receiver
            → s.receiver ≡ a.receiver
            → IsTrue
                (record {
                  completed = completed && not (is_failed a.receiver);
                  files = a.receiver.files;
                  failures = a.receiver.failures;
                })
                s
        reported s a h e = record {
          bounded = h.0;
          files = ap (λ u. u.files) (sym e);
          failures = ap (λ u. u.failures) (sym e);
          seen = λ c. subst (λ u. HasSeen u.files) e (h.1 (both completed _ c).0);
          faultless = λ c. no_failures a.receiver (both completed _ c).1;
        }
