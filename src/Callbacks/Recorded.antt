-- ===== src/Callbacks/Recorded.antt =====
-- What a callback (src/cmnd_linux/callbacks.py) records.
use linux_cmnd.Prelude.{◌≡◌, ◌⊎◌, String, true, false, str_eq}
use linux_cmnd.Result.{Error, Result, ok, err}
use linux_cmnd.Json.{Json, pos, lookup, is_text}
use linux_cmnd.Callbacks.{
  CallbackState, Callback, Reply, not_found, command, Notice, latest, or_none, polling_command,
  read_notice,
}

module _ (to_str : Json → String) where
  -- A message of a TV that names itself and its function, in a bounded body.
  pub record IsNotice (r : Callback) (n : Notice) : Type 0 where
    pub service : is_text "WebServices" (lookup "Svc" n.message) ≡ true
    pub response : is_text "Response" (lookup "CmdType" n.message) ≡ true
    pub identified : str_eq n.identity "" ≡ false
    pub functional : str_eq n.fun "" ≡ false

  -- The handler records exactly the messages that it answers with a command.
  pub record IsAnswered (r : Callback) (s : CallbackState) (sent : Json) (t : CallbackState)
      : Type 0 where
    pub notice : Notice
    pub read : read_notice to_str r ≡ ok notice
    pub sound : IsNotice r notice
    pub replied : sent ≡ polling_command notice.identity notice.fun (pos 293)
    pub recorded : latest notice.identity t ≡ or_none notice.message
    pub others :
        (other : String) → str_eq notice.identity other ≡ false → latest other t ≡ latest other s

  -- Nothing is recorded, or a command is whose writing raises.
  abbrev pub IsUnanswered : Callback → CallbackState → CallbackState → Type 0
  IsUnanswered r s t =
      (t ≡ s)
      ⊎ ((sent : Json) × IsAnswered r s sent t × ((e : Error) × (r.write (command sent) ≡ err e)))

  abbrev pub Posted : Callback → CallbackState → Result Reply → CallbackState → Type 0
  Posted r s (ok (command sent)) t = IsAnswered r s sent t × (r.write (command sent) ≡ ok tt)
  Posted r s (ok not_found) t = t ≡ s
  Posted r s _ t = IsUnanswered r s t
