-- ===== src/CloneExport/Receive/Budget.antt =====
-- The budget of the receiver in src/cmnd_linux/clone_export.py, in bytes of the files that it has.
use linux_cmnd.Prelude.{
  ℕ, ◌+◌, ◌≤◌, ◌≡◌, ◌⊎◌, inl, inr, ap, sym, subst, ◌∙◌, some, List, [], arith, All, All-append,
  length,
}
use linux_cmnd.Prelude.Chars.{Text}
use linux_cmnd.Result.{Result, ok, err}
use linux_cmnd.Exec.Triple.{Settles}
use linux_cmnd.Exec.Keeps.{Keeps}
use linux_cmnd.Config.Types.{IpLibrary}
use linux_cmnd.CloneExport.Received.{Received, ReceiveLibrary}
use linux_cmnd.CloneExport.Received.Files.{IsAccepted}
use linux_cmnd.CloneExport.Received.Sizes.{sum_bytes, sum_bytes-append, extract_files_bytes}
use linux_cmnd.CloneExport.Receive.{
  ReceiveState, Upload, Status, received, rejected, forbidden, do_post,
}
use linux_cmnd.CloneExport.Receive.Body.{receive_body-IsWhole}
use linux_cmnd.CloneExport.Receive.Steady.{AreFiles, IsCounted, Progress, Handled}
use linux_cmnd.CloneExport.Receive.Bounded.{do_post-IsHandled}

module _ (lib : ReceiveLibrary) where
  -- The files have no more bytes than were counted, those are within the budget, and each file is
  -- the report on an archive that the inspection has accepted.
  pub record IsBudgeted (s : ReceiveState) : Type 0 where
    pub counted : sum_bytes s.files ≤ s.total_bytes
    pub within : s.total_bytes ≤ s.max_bytes
    pub sound : All (IsAccepted lib) s.files

  module _ (ips : IpLibrary) (r : Upload)
      (bounded : (n : ℕ) (t : Text) → length (r.reader.read1 n t) ≤ n) where
    files_fit : (size : ℕ) (new : List Received) → AreFiles lib r size new → sum_bytes new ≤ size
    files_fit size new h =
        let whole = receive_body-IsWhole r.reader bounded size size [] (omega arith) in
        let same = some_injective _ _ (sym whole.ended ∙ h.read) in
        let long : length h.body ≡ 0 + size = whole.whole.holds h.body same in
        omega (arith, long, extract_files_bytes lib r.content_type h.body new h.extracted)
      where
        some_injective : (a b : Result Text) → some a ≡ some b → a ≡ b
        some_injective a b e = cc

    fits :
        (s : ReceiveState) (size : ℕ) (new : List Received)
        → ((size ≡ 0) × (new ≡ [])) ⊎ IsCounted lib r s size new
        → sum_bytes new ≤ size
    fits s size new (inl (e, f)) = subst (λ l. sum_bytes l ≤ size) (sym f) (omega arith)
    fits s size new (inr h) = taken h.taken
      where
        taken : (new ≡ []) ⊎ AreFiles lib r size new → sum_bytes new ≤ size
        taken (inl f) = subst (λ l. sum_bytes l ≤ size) (sym f) (omega arith)
        taken (inr k) = files_fit size new k

    advanced : (s t : ReceiveState) → Progress lib r s t → IsBudgeted s → IsBudgeted t
    advanced s t p h = record {
      counted =
          let small = fits s p.size p.new p.account in
          let grown = ap sum_bytes p.extends ∙ sum_bytes-append s.files p.new in
          omega (arith, small, grown, p.grows, h.counted);
      within = p.within h.within;
      sound =
          subst (All (IsAccepted lib)) (sym p.extends) (All-append _ s.files p.new h.sound p.sound);
    }

    status-IsBudgeted :
        (s t : ReceiveState) (a : Status) → Handled lib r s a t → IsBudgeted s → IsBudgeted t
    status-IsBudgeted s t forbidden e h = subst IsBudgeted (sym e) h
    status-IsBudgeted s t received p h = advanced s t p.0 h
    status-IsBudgeted s t rejected p h = advanced s t p.0 h

    -- If a read of the socket returns no more than its limit, no request makes the files of the
    -- receiver larger, in sum, than the bytes that it has counted, or those larger than its budget,
    -- or makes it keep a file that its inspection has not accepted.
    pub do_post-IsBudgeted : Keeps IsBudgeted (do_post ips lib r)
    do_post-IsBudgeted = record {
      kept = λ s h. after s h (do_post ips lib r s).0 (do_post-IsHandled lib ips r s);
    }
      where
        after :
            (s : ReceiveState)
            → IsBudgeted s
            → (x : Result Status)
            → Settles (λ a t. Handled lib r s a t) (λ _ t. t ≡ s) x (do_post ips lib r s).1
            → IsBudgeted (do_post ips lib r s).1
        after s h (ok a) k = status-IsBudgeted s _ a k h
        after s h (err e) k = subst IsBudgeted (sym k) h
