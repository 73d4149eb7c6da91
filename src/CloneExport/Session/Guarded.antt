-- ===== src/CloneExport/Session/Guarded.antt =====
-- What the export of src/cmnd_linux/clone_export.py sends to a TV.
use linux_cmnd.Prelude.{
  ◌≡◌, refl, sym, subst, ◌+◌, ◌≤◌, arith, str_eq, eq_iff, if◌then◌else◌, ◌⊎◌, inl, inr, String,
  Bool, true, false, Option, none, some, List, [], ◌∷◌, ℕ, All,
}
use linux_cmnd.Result.{Result, ok, err}
use linux_cmnd.Result.Chain.{Ensures, Ensures-refuse, Ensures-ok}
use linux_cmnd.Exec.{lift}
use linux_cmnd.Exec.Triple.{
  Triple, Settles, Triple-pure, Triple-lift, Triple-throw, Triple-read, Triple-modify, Triple-bind,
  Triple-refuse, Triple-catch, Triple-if, Triple-assume, Triple-weaken,
}
use linux_cmnd.Json.{ℤ}
use linux_cmnd.Config.Types.{Config}
use linux_cmnd.Config.Authorize.{authorize}
use linux_cmnd.Protocol.Requests.{Message, clone_info_request}
use linux_cmnd.Protocol.Requests.Export.{IsExport, clone_export_request-IsExport}
use linux_cmnd.Discovery.Identify.{Tv}
use linux_cmnd.Discovery.Identify.Verified.{IsVerified, verify_identity-IsVerified}
use linux_cmnd.CloneExport.Receive.{Upload}
use linux_cmnd.CloneExport.Session.{
  Surroundings, Session, Report, Event, asked, wrote_response, wrote_report, sent, handle_all, wait,
  conclude, verify, send_message, upload_url, export_message, exchange, export_executed,
  export_clone, is_failed, has_all,
}

record IsRequest (m : Message) : Type 0 where
  pub reads : m.cmd_type ≡ "Request"

clone_info_request-IsRequest :
    (fresh : ℤ) (version : String) → Ensures IsRequest (clone_info_request fresh version none)
unfolding clone_info_request
clone_info_request-IsRequest fresh version =
    Ensures-refuse _ _ _ λ _. Ensures-ok _ (record { reads = refl })

-- 1 for a message that does more than read.
abbrev pub change_of : Message → ℕ
change_of m = if str_eq m.cmd_type "Request" then 0 else 1

abbrev pub changes : List Event → ℕ
changes [] = 0
changes (sent m ∷ before) = change_of m + changes before
changes (asked t ∷ before) = changes before
changes (wrote_response f ∷ before) = changes before
changes (wrote_report r ∷ before) = changes before

module _ (w : Surroundings) (config : Config) (target identity : String) (items : List String)
    (version : String) (execute : Bool) where
  -- A message that makes a TV send its content: the operation is approved for the target, the TV has
  -- been verified, and the message exports the items to the private URL and does nothing else.
  pub record IsPermitted (m : Message) : Type 0 where
    pub tv : Tv
    pub before : List Event
    pub drawn : List Event
    pub authorized : authorize w.ips config target identity "clone-export" true ≡ ok tt
    pub verified :
        IsVerified w.ips w.to_str
          (w.now before)
          (w.net before)
          w.ip_network
          config
          (w.fresh before)
          target
          identity
          9079
          tv
    pub exports :
        IsExport w.ips w.urlsplit
          (w.fresh drawn)
          tv.identity
          items
          (upload_url w config target identity items version)
          version
          none
          m

  -- Nothing is done unless `execute` is set, and what is sent only reads or is permitted.
  abbrev pub IsGuarded : Event → Type 0
  IsGuarded (sent m) = (execute ≡ true) × ((m.cmd_type ≡ "Request") ⊎ IsPermitted m)
  IsGuarded _ = execute ≡ true

  -- At most `n` of the messages make a TV do more than answer.
  abbrev pub AreGuarded : ℕ → Session → Type 0
  AreGuarded n s = All IsGuarded s.events × (changes s.events ≤ n)

  abbrev Guarded : Session → Type 0
  Guarded s = AreGuarded 1 s

  abbrev Quiet : Session → Type 0
  Quiet s = AreGuarded 0 s

  loud : (s : Session) → Quiet s → Guarded s
  loud s (h, k) = (h, omega (arith, k))

  weak : {A : Type 0} (r : Result A) → Triple Quiet (lift r) (λ _ t. Quiet t) (λ _ t. Guarded t)
  weak r = Triple-lift r (λ t a _ h. h) (λ t e _ h. loud t h)

  handle_all-AreGuarded :
      (n : ℕ) (rs : List Upload)
      → Triple (AreGuarded n) (handle_all w rs) (λ _ t. AreGuarded n t) (λ _ t. Guarded t)
  unfolding handle_all
  handle_all-AreGuarded n [] = Triple-pure tt (λ t h. h)
  handle_all-AreGuarded n (r ∷ rest) =
      Triple-bind _ _ (λ _ t. AreGuarded n t) (Triple-modify _ (λ t h. h))
        λ _. handle_all-AreGuarded n rest

  wait-AreGuarded :
      (n : ℕ) (ps : List (List Upload))
      → Triple (AreGuarded n) (wait w items ps) (λ _ t. AreGuarded n t) (λ _ t. Guarded t)
  unfolding wait
  wait-AreGuarded n [] = Triple-pure false (λ t h. h)
  wait-AreGuarded n (rs ∷ rest) =
      let later = wait-AreGuarded n rest in
      Triple-bind _ _ (λ _ t. AreGuarded n t) Triple-read
        λ s.
          Triple-if (is_failed s.receiver) _ _ (λ _. Triple-pure false (λ t h. h))
            λ _.
              Triple-if (has_all items s.receiver.files) _ _ (λ _. Triple-pure true (λ t h. h))
                λ _. Triple-bind _ _ (λ _ t. AreGuarded n t) (handle_all-AreGuarded n rs) λ _. later

  module _ (executed : execute ≡ true) where
    conclude-AreGuarded :
        (b : Bool) → Triple (λ t. Guarded t) (conclude w b) (λ _ t. Guarded t) (λ _ t. Guarded t)
    conclude-AreGuarded b =
        unfold conclude in
        Triple-bind _ _ (λ _ t. Guarded t) (handle_all-AreGuarded 1 w.closing)
          λ _.
            Triple-bind _ _ (λ _ t. Guarded t) Triple-read
              λ s.
                Triple-bind _ _ (λ _ t. Guarded t) (Triple-modify _ (λ t h. ((executed, h.0), h.1)))
                  λ _. Triple-pure _ (λ t h. h)

    record IsIdentified (tv : Tv) : Type 0 where
      pub before : List Event
      pub verified :
          IsVerified w.ips w.to_str
            (w.now before)
            (w.net before)
            w.ip_network
            config
            (w.fresh before)
            target
            identity
            9079
            tv

    verify-AreGuarded :
        Triple
          (λ t. Quiet t)
          (verify w config target identity)
          (λ tv t. Quiet t × IsIdentified tv)
          (λ _ t. Guarded t)
    verify-AreGuarded =
        unfold verify in
        Triple-bind _ _ (λ _ t. Quiet t) Triple-read
          λ s.
            Triple-bind _ _ (λ _ t. Quiet t) (Triple-modify _ (λ t h. ((executed, h.0), h.1)))
              λ _.
                Triple-lift _
                  (λ t tv e h. (
                    h,
                    record {
                      before = s.events;
                      verified =
                          (verify_identity-IsVerified w.ips w.to_str (w.now s.events)
                              (w.net s.events) w.ip_network config (w.fresh s.events) target
                              identity 9079).holds
                            tv e;
                    },
                  ))
                  (λ t e _ h. loud t h)

    send_message-AreGuarded :
        (n : ℕ) (m : Message)
        → n + change_of m ≤ 1
        → (m.cmd_type ≡ "Request") ⊎ IsPermitted m
        → Triple
            (AreGuarded n)
            (send_message w config target identity m)
            (λ _ t. AreGuarded (n + change_of m) t)
            (λ _ t. Guarded t)
    send_message-AreGuarded n m once may =
        unfold send_message in
        Triple-bind _ _ (λ _ t. AreGuarded n t) Triple-read
          λ s.
            Triple-bind _ _ (λ _ t. AreGuarded (n + change_of m) t)
              (Triple-modify _ (λ t h. (((executed, may), h.0), counted (changes t.events) h.1)))
              λ _. Triple-lift _ (λ t a _ h. h) (λ t e _ h. (h.0, le_trans h.1 once))
      where
        counted : (c : ℕ) → c ≤ n → change_of m + c ≤ n + change_of m
        counted c h = omega (arith, h)

        le_trans : {a b c : ℕ} → a ≤ b → b ≤ c → a ≤ c
        le_trans h k = omega arith

    send_read :
        (m : Message)
        → m.cmd_type ≡ "Request"
        → Triple Quiet (send_message w config target identity m) (λ _ t. Quiet t) (λ _ t. Guarded t)
    send_read m reads =
        subst
          (λ k.
            Triple Quiet (send_message w config target identity m) (λ _ t. AreGuarded k t)
              (λ _ t. Guarded t))
          (quiet m reads)
          (send_message-AreGuarded 0 m (subst (λ k. k ≤ 1) (sym (quiet m reads)) (omega arith))
            (inl reads))
      where
        quiet : (m : Message) → m.cmd_type ≡ "Request" → 0 + change_of m ≡ 0
        quiet m h = rw ((eq_iff m.cmd_type "Request").1 h) refl

    send_once :
        (m : Message)
        → IsPermitted m
        → Triple Quiet
            (send_message w config target identity m)
            (λ _ t. Guarded t)
            (λ _ t. Guarded t)
    send_once m may =
        Triple-weaken _ (λ t h. h) (λ _ t h. (h.0, le_trans h.1 (single m))) (λ _ t h. h)
          (send_message-AreGuarded 0 m (single m) (inr may))
      where
        le_trans : {a b c : ℕ} → a ≤ b → b ≤ c → a ≤ c
        le_trans h k = omega arith

        single : (m : Message) → 0 + change_of m ≤ 1
        single m = one (str_eq m.cmd_type "Request")
          where
            one : (b : Bool) → 0 + (if b then 0 else 1) ≤ 1
            one true = omega arith
            one false = omega arith

    exchange-AreGuarded :
        (selected : String)
        → authorize w.ips config target identity "clone-export" true ≡ ok tt
        → Triple
            (λ t. Quiet t)
            (exchange w config target identity items version selected)
            (λ _ t. Guarded t)
            (λ _ t. Guarded t)
    exchange-AreGuarded selected approved =
        unfold exchange in
        Triple-bind _ _ (λ _ t. Quiet t) (handle_all-AreGuarded 0 w.during)
          λ _.
            Triple-bind _ _ (λ tv t. Quiet t × IsIdentified tv) verify-AreGuarded
              λ tv.
                Triple-bind _ _ (λ _ t. Quiet t × IsIdentified tv)
                  (Triple-refuse _ _ (λ t _ h. loud t h.0) (λ t _ h. h))
                  λ _.
                    Triple-bind _ _ (λ _ t. Quiet t × IsIdentified tv) Triple-read
                      λ s.
                        Triple-bind _ _ (λ m t. Quiet t × IsPermitted m)
                          (Triple-lift _ (λ t m e h. (h.0, permitted tv s.events m h.1 e))
                            (λ t e _ h. loud t h.0))
                          λ m.
                            Triple-bind _ _ (λ _ t. Guarded t)
                              (Triple-assume _ (λ t h. h.1)
                                λ may.
                                  Triple-weaken _ (λ t h. h.0) (λ a t h. h) (λ e t h. h)
                                    (send_once m may))
                              λ response.
                                Triple-bind _ _ (λ _ t. Guarded t)
                                  (Triple-modify _ (λ t h. ((executed, h.0), h.1)))
                                  λ _. wait-AreGuarded 1 w.polls
      where
        permitted :
            (tv : Tv) (drawn : List Event) (m : Message)
            → IsIdentified tv
            → export_message w config target identity items version (w.fresh drawn) tv.identity
              ≡ ok m
            → IsPermitted m
        permitted tv drawn m i e = record {
          tv = tv;
          before = i.before;
          drawn = drawn;
          authorized = approved;
          verified = i.verified;
          exports =
              (clone_export_request-IsExport w.ips w.urlsplit (w.fresh drawn) tv.identity items
                  (upload_url w config target identity items version) version none).holds
                m e;
        }

    export_executed-AreGuarded :
        (max_bytes : ℕ)
        → Triple
            (λ t. Quiet t)
            (export_executed w config target identity items version max_bytes)
            (λ _ t. Guarded t)
            (λ _ t. Guarded t)
    export_executed-AreGuarded max_bytes =
        unfold export_executed in
        Triple-bind _ _
          (λ _ t. Quiet t × (authorize w.ips config target identity "clone-export" true ≡ ok tt))
          (Triple-lift _ (λ t a e h. (h, e)) (λ t e _ h. loud t h))
          λ _.
            Triple-assume _ (λ t h. h.1)
              λ approved.
                Triple-weaken _ (λ t h. h.0) (λ a t h. h) (λ e t h. h)
                  (Triple-bind _ _ (λ _ t. Quiet t)
                    (Triple-weaken _ (λ t h. h) (λ a t h. h.0) (λ e t h. h) verify-AreGuarded)
                    λ selected.
                      Triple-bind _ _ (λ _ t. Quiet t) Triple-read
                        λ s.
                          Triple-bind _ _ (λ m t. Quiet t × (m.cmd_type ≡ "Request"))
                            (Triple-lift _
                              (λ t m e h. (
                                h,
                                ((clone_info_request-IsRequest (w.fresh s.events) version).holds m
                                    e).reads,
                              ))
                              (λ t e _ h. loud t h))
                            λ m.
                              Triple-bind _ _ (λ _ t. Quiet t)
                                (Triple-assume _ (λ t h. h.1)
                                  λ reads.
                                    Triple-weaken _ (λ t h. h.0) (λ a t h. h) (λ e t h. h)
                                      (send_read m reads))
                                λ response.
                                  Triple-bind _ _ (λ _ t. Quiet t) (weak _)
                                    λ capabilities.
                                      Triple-bind _ _ (λ _ t. Quiet t) (weak _)
                                        λ _.
                                          Triple-bind _ _ (λ _ t. Quiet t) (weak w.directory)
                                            λ _.
                                              Triple-bind _ _ (λ _ t. Quiet t) (weak w.bound)
                                                λ _.
                                                  Triple-bind _ _ (λ _ t. Guarded t)
                                                    (Triple-catch _ _ (λ _ t. Guarded t)
                                                      (exchange-AreGuarded selected.identity
                                                        approved)
                                                      λ e.
                                                        Triple-bind _ _ (λ _ t. Guarded t)
                                                          (conclude-AreGuarded false)
                                                          λ _. Triple-throw e (λ t h. h))
                                                    λ completed. conclude-AreGuarded completed)

  -- Behind events of which the same holds, and no message that does more than read: an export does
  -- nothing to a TV and writes nothing unless it executes. Of its messages at most one does more than
  -- read. Where it is sent, the operation is authorized for the target, and the message names the
  -- identity of a TV that was verified, makes that TV send the items to the private URL, and has no
  -- part that is sent to the TV.
  pub export_clone-AreGuarded :
      (wait_seconds max_bytes : ℕ) (s : Session)
      → AreGuarded 0 s
      → AreGuarded 1
          (export_clone w config target identity items version execute wait_seconds max_bytes s).1
  export_clone-AreGuarded wait_seconds max_bytes s h =
      either_way _
        (export_clone w config target identity items version execute wait_seconds max_bytes s).1
        (whole.run s h)
    where
      either_way :
          (r : Result (Option Report)) (t : Session)
          → Settles (λ _ u. Guarded u) (λ _ u. Guarded u) r t
          → Guarded t
      either_way (ok a) t k = k
      either_way (err e) t k = k

      whole :
          Triple
            (λ t. Quiet t)
            (export_clone w config target identity items version execute wait_seconds max_bytes)
            (λ _ t. Guarded t)
            (λ _ t. Guarded t)
      whole =
          unfold export_clone in
          Triple-bind _ _ (λ _ t. Quiet t) (weak _)
            λ _.
              Triple-bind _ _ (λ _ t. Quiet t) (weak _)
                λ origin.
                  Triple-bind _ _ (λ _ t. Quiet t) (weak _)
                    λ _.
                      Triple-bind _ _ (λ _ t. Quiet t) (weak _)
                        λ _.
                          Triple-bind _ _ (λ _ t. Quiet t) Triple-read
                            λ s.
                              Triple-bind _ _ (λ _ t. Quiet t) (weak _)
                                λ _.
                                  Triple-if execute _ _
                                    (λ executed.
                                      Triple-bind _ _ (λ _ t. Guarded t)
                                        (export_executed-AreGuarded executed max_bytes)
                                        λ r. Triple-pure (some r) (λ t h. h))
                                    (λ _. Triple-pure none (λ t h. loud t h))
