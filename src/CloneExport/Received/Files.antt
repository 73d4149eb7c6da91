-- ===== src/CloneExport/Received/Files.antt =====
-- The files that the receiver takes from the parts of an upload, in src/cmnd_linux/clone_export.py.
use linux_cmnd.Prelude.{
  refl, String, ◌||◌, Option, none, some, List, [], ◌∷◌, All, All-append, one_of,
}
use linux_cmnd.Prelude.Chars.{Text, codes, text_eq}
use linux_cmnd.Result.Chain.{Ensures, Ensures-ok, Ensures-bind, Ensures-refuse}
use linux_cmnd.Protocol.Requests.{export_items}
use linux_cmnd.CloneExport.Multipart.{Part}
use linux_cmnd.CloneExport.Received.{
  Received, ReceiveLibrary, with_stem, file_of, files_of, stem_of, extract_files,
}
use linux_cmnd.CloneExport.Received.Sound.{
  IsReceived, inspect_received_zip-IsReceived, select-known,
}

module _ (lib : ReceiveLibrary) where
  -- The report is one of an archive in some content.
  abbrev pub IsAccepted : Received → Type 0
  IsAccepted r = (content : Text) × IsReceived lib content r

  with_stem-IsReceived :
      (filename content : Text) (r : Received)
      → IsReceived lib content r
      → IsReceived lib content (with_stem lib filename r)
  with_stem-IsReceived filename content r h = record {
    archive = h.archive;
    opened = h.opened;
    sized = h.sized;
    some_content = h.some_content;
    few = h.few;
    small = h.small;
    sound = h.sound;
    counted = h.counted;
    sealed = h.sealed;
    intact = h.intact;
    known =
        select-known
          (λ name. one_of name r.identified_items || text_eq (stem_of lib filename) (codes name))
          export_items refl;
  }

  file_of-All :
      (name : Option Text) (part : Part) → Ensures (All IsAccepted) (file_of lib name part)
  file_of-All none part = Ensures-refuse _ _ _ λ _. Ensures-ok _ tt
  file_of-All (some filename) part = Ensures-bind _ _ λ r i. Ensures-ok _ (
    (
      part.content,
      with_stem-IsReceived filename part.content r
          ((inspect_received_zip-IsReceived lib part.content).holds r i),
    ),
    tt,
  )

  files_of-All : (parts : List Part) → Ensures (All IsAccepted) (files_of lib parts)
  unfolding files_of
  files_of-All [] = Ensures-ok _ tt
  files_of-All (part ∷ rest) = Ensures-bind _ _ λ file f. Ensures-bind _ _ λ others o.
      Ensures-ok _ (
        All-append _ file others ((file_of-All (lib.filename part.headers) part).holds file f)
          ((files_of-All rest).holds others o))

  pub extract_files-All :
      (content_type : String) (body : Text)
      → Ensures (All IsAccepted) (extract_files lib content_type body)
  unfolding extract_files
  extract_files-All content_type body = Ensures-bind _ _ λ boundary _. Ensures-bind _ _ λ parts _.
      Ensures-bind _ _
        λ files f. Ensures-refuse _ _ _ λ _. Ensures-ok _ ((files_of-All parts).holds files f)
