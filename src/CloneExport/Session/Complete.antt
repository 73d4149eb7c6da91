-- ===== src/CloneExport/Session/Complete.antt =====
-- What the report of the export in src/cmnd_linux/clone_export.py says.
use linux_cmnd.Prelude.{String, Bool, false, Option, none, some, List, ℕ}
use linux_cmnd.Result.{Error, Result}
use linux_cmnd.Exec.{throw, lift, ◌>>◌}
use linux_cmnd.Exec.Triple.{
  Triple, Settles, Triple-pure, Triple-lift, Triple-throw, Triple-read, Triple-modify, Triple-bind,
  Triple-refuse, Triple-catch, Triple-if, Triple-weaken,
}
use linux_cmnd.Config.Types.{Config}
use linux_cmnd.Protocol.Requests.{Message}
use linux_cmnd.CloneExport.Receive.{ReceiveState}
use linux_cmnd.CloneExport.Receive.Bounded.{IsBounded}
use linux_cmnd.CloneExport.Session.Seen.{
  Holds, IsTrue, handle_all-Holds, wait-Holds, conclude-IsTrue,
}
use linux_cmnd.CloneExport.Session.{
  Surroundings, Session, Report, conclude, verify, send_message, exchange, export_executed,
  export_clone,
}

module _ (w : Surroundings) (items : List String) where
  module _ (config : Config) (target identity : String) (version : String) where
    abbrev Bounded : Session → Type 0
    Bounded s = IsBounded w.library s.receiver

    weak :
        {A : Type 0} (r : Result A) → Triple Bounded (lift r) (λ _ s. Bounded s) (λ _ s. Bounded s)
    weak r = Triple-lift r (λ s a _ h. h) (λ s e _ h. h)

    unseen : (s : ReceiveState) → IsBounded w.library s → Holds w items false s
    unseen s h = (h, λ c. absurd (cc c))

    verify-Bounded :
        Triple Bounded (verify w config target identity) (λ _ s. Bounded s) (λ _ s. Bounded s)
    verify-Bounded =
        unfold verify in
        Triple-bind _ _ (λ _ s. Bounded s) Triple-read
          λ s. Triple-bind _ _ (λ _ s. Bounded s) (Triple-modify _ (λ s h. h)) λ _. weak _

    send_message-Bounded :
        (m : Message)
        → Triple Bounded
            (send_message w config target identity m)
            (λ _ s. Bounded s)
            (λ _ s. Bounded s)
    send_message-Bounded m =
        unfold send_message in
        Triple-bind _ _ (λ _ s. Bounded s) Triple-read
          λ s. Triple-bind _ _ (λ _ s. Bounded s) (Triple-modify _ (λ s h. h)) λ _. weak _

    exchange-Holds :
        (selected : String)
        → Triple Bounded
            (exchange w config target identity items version selected)
            (λ completed s. Holds w items completed s.receiver)
            (λ _ s. Bounded s)
    exchange-Holds selected =
        unfold exchange in
        Triple-bind _ _ (λ _ s. Bounded s)
          (Triple-weaken _ (λ s h. unseen s.receiver h) (λ _ s h. h.0) (λ e s h. h)
            (handle_all-Holds w items (λ _ s. Bounded s) false w.during))
          λ _.
            Triple-bind _ _ (λ _ s. Bounded s) verify-Bounded
              λ tv.
                Triple-bind _ _ (λ _ s. Bounded s) (Triple-refuse _ _ (λ s _ h. h) (λ s _ h. h))
                  λ _.
                    Triple-bind _ _ (λ _ s. Bounded s) Triple-read
                      λ a.
                        Triple-bind _ _ (λ _ s. Bounded s) (weak _)
                          λ m.
                            Triple-bind _ _ (λ _ s. Bounded s) (send_message-Bounded m)
                              λ response.
                                Triple-bind _ _ (λ _ s. Bounded s) (Triple-modify _ (λ s h. h))
                                  λ _.
                                    Triple-weaken _ (λ s h. unseen s.receiver h) (λ _ s h. h)
                                      (λ e s h. h) (wait-Holds w items (λ _ s. Bounded s) w.polls)

    export_executed-IsTrue :
        (max_bytes : ℕ)
        → Triple Bounded
            (export_executed w config target identity items version max_bytes)
            (IsTrue w items)
            (λ _ s. Bounded s)
    export_executed-IsTrue max_bytes =
        unfold export_executed in
        Triple-bind _ _ (λ _ s. Bounded s) (weak _)
          λ _.
            Triple-bind _ _ (λ _ s. Bounded s) verify-Bounded
              λ selected.
                Triple-bind _ _ (λ _ s. Bounded s) Triple-read
                  λ a.
                    Triple-bind _ _ (λ _ s. Bounded s) (weak _)
                      λ info.
                        Triple-bind _ _ (λ _ s. Bounded s) (send_message-Bounded info)
                          λ response.
                            Triple-bind _ _ (λ _ s. Bounded s) (weak _)
                              λ capabilities.
                                Triple-bind _ _ (λ _ s. Bounded s) (weak _)
                                  λ _.
                                    Triple-bind _ _ (λ _ s. Bounded s) (weak w.directory)
                                      λ _.
                                        Triple-bind _ _ (λ _ s. Bounded s) (weak w.bound)
                                          λ _.
                                            Triple-bind _ _
                                              (λ completed s. Holds w items completed s.receiver)
                                              (Triple-catch _ _ (λ _ s. Bounded s)
                                                (exchange-Holds selected.identity) λ e. raised e)
                                              λ completed.
                                                conclude-IsTrue w items (λ _ s. Bounded s) completed
      where
        raised :
            (e : Error)
            → Triple Bounded
                (conclude w false >> throw e)
                (λ completed s. Holds w items completed s.receiver)
                (λ _ s. Bounded s)
        raised e =
            Triple-bind _ _ (λ report s. IsTrue w items report s)
              (Triple-weaken _ (λ s h. unseen s.receiver h) (λ a s h. h) (λ e s h. h)
                (conclude-IsTrue w items (λ _ s. Bounded s) false))
              λ _. Triple-throw e (λ s h. h.bounded)

    -- The report of an export that executed, where there is one.
    abbrev pub Reports : Option Report → Session → Type 0
    Reports none s = Bounded s
    Reports (some report) s = IsTrue w items report s

    -- From a receiver within its bounds, an export that returns a report tells the truth: completed
    -- means that all items were seen in files that passed the CRC test and that nothing failed, and
    -- the files are those of the receiver. In each case, a raise included, the receiver has taken no
    -- more than its budget and only files that its inspection has accepted.
    pub export_clone-Reports :
        (execute : Bool) (wait_seconds max_bytes : ℕ) (s : Session)
        → IsBounded w.library s.receiver
        → Settles Reports
            (λ _ t. IsBounded w.library t.receiver)
            (export_clone w config target identity items version execute wait_seconds max_bytes s).0
            (export_clone w config target identity items version execute wait_seconds max_bytes s).1
    export_clone-Reports execute wait_seconds max_bytes s h = whole.run s h
      where
        whole :
            Triple Bounded
              (export_clone w config target identity items version execute wait_seconds max_bytes)
              Reports
              (λ _ t. IsBounded w.library t.receiver)
        whole =
            unfold export_clone in
            Triple-bind _ _ (λ _ t. Bounded t) (weak _)
              λ _.
                Triple-bind _ _ (λ _ t. Bounded t) (weak _)
                  λ origin.
                    Triple-bind _ _ (λ _ t. Bounded t) (weak _)
                      λ _.
                        Triple-bind _ _ (λ _ t. Bounded t) (weak _)
                          λ _.
                            Triple-bind _ _ (λ _ t. Bounded t) Triple-read
                              λ a.
                                Triple-bind _ _ (λ _ t. Bounded t) (weak _)
                                  λ _.
                                    Triple-if execute _ _
                                      (λ _.
                                        Triple-bind _ _ (IsTrue w items)
                                          (export_executed-IsTrue max_bytes)
                                          λ r. Triple-pure (some r) (λ t h. h))
                                      (λ _. Triple-pure none (λ t h. h))
