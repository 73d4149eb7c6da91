-- ===== src/CloneExport/Receive/Bounded.antt =====
-- The invariant of the receiver in src/cmnd_linux/clone_export.py.
use linux_cmnd.Prelude.{◌≤◌, ◌≡◌, refl, sym, subst, Bool, true, false, All, All-append}
use linux_cmnd.Result.{Result, ok, err}
use linux_cmnd.Exec.Triple.{Triple, Triple-pure, Triple-lift, Triple-get, Triple-bind, Triple-catch}
use linux_cmnd.Config.Types.{IpLibrary}
use linux_cmnd.CloneExport.Received.{ReceiveLibrary}
use linux_cmnd.Exec.Triple.{Settles}
use linux_cmnd.Exec.Keeps.{Keeps}
use linux_cmnd.CloneExport.Receive.Steady.{Progress, Handled, Steady, accept-Steady, reject-Handled}
use linux_cmnd.CloneExport.Received.Files.{IsAccepted}
use linux_cmnd.CloneExport.Receive.{
  ReceiveState, Upload, Status, received, rejected, forbidden, do_post, post,
}

module _ (lib : ReceiveLibrary) where
  -- The budget holds, and each file is one that the inspection has accepted.
  pub record IsBounded (s : ReceiveState) : Type 0 where
    pub within : s.total_bytes ≤ s.max_bytes
    pub sound : All (IsAccepted lib) s.files

  module _ (ips : IpLibrary) where
    handled :
        (r : Upload) (s : ReceiveState)
        → Triple (λ t. t ≡ s) (do_post ips lib r) (λ a t. Handled lib r s a t) (λ _ t. t ≡ s)
    handled r s =
        unfold do_post in
        Triple-bind _ _ (λ a t. (t ≡ s) × (t ≡ a)) Triple-get
          λ a.
            Triple-bind _ _ (λ _ t. t ≡ s) (Triple-lift _ (λ t b _ h. h.0) (λ t e _ h. h.0))
              λ permitted. posted permitted
      where
        posted :
            (b : Bool)
            → Triple (λ t. t ≡ s) (post ips lib r b) (λ a t. Handled lib r s a t) (λ _ t. t ≡ s)
        posted false = Triple-pure forbidden (λ t h. h)
        posted true =
            Triple-catch _ _ (λ _ t. Steady lib r s t) (accept-Steady lib ips r s)
              λ e. reject-Handled lib ips r s e

    pub do_post-IsHandled :
        (r : Upload) (s : ReceiveState)
        → Settles
            (λ a t. Handled lib r s a t)
            (λ _ t. t ≡ s)
            (do_post ips lib r s).0
            (do_post ips lib r s).1
    do_post-IsHandled r s = (handled r s).run s refl

    advanced : (r : Upload) (s t : ReceiveState) → Progress lib r s t → IsBounded s → IsBounded t
    advanced r s t p h = record {
      within = p.within h.within;
      sound =
          subst (All (IsAccepted lib)) (sym p.extends) (All-append _ s.files p.new h.sound p.sound);
    }

    Handled-IsBounded :
        (r : Upload) (s t : ReceiveState) (a : Status)
        → Handled lib r s a t
        → IsBounded s
        → IsBounded t
    Handled-IsBounded r s t forbidden e h = subst IsBounded (sym e) h
    Handled-IsBounded r s t received p h = advanced r s t p.0 h
    Handled-IsBounded r s t rejected p h = advanced r s t p.0 h

    -- No request makes the receiver take more bytes than its budget, or a file that its inspection
    -- has not accepted.
    pub do_post-IsBounded : (r : Upload) → Keeps IsBounded (do_post ips lib r)
    do_post-IsBounded r = record {
      kept = λ s h. after s h (do_post ips lib r s).0 (do_post-IsHandled r s);
    }
      where
        after :
            (s : ReceiveState)
            → IsBounded s
            → (x : Result Status)
            → Settles (λ a t. Handled lib r s a t) (λ _ t. t ≡ s) x (do_post ips lib r s).1
            → IsBounded (do_post ips lib r s).1
        after s h (ok a) k = Handled-IsBounded r s _ a k h
        after s h (err e) k = subst IsBounded (sym k) h
