-- ===== src/CloneExport/Received/Sizes.antt =====
-- The bytes of the files in an upload, in src/cmnd_linux/clone_export.py.
use linux_cmnd.Prelude.{
  ℕ, ◌+◌, ◌≤◌, ◌≡◌, sym, subst, String, Option, none, some, List, [], ◌∷◌, ◌++◌, arith, length,
  length-append,
}
use linux_cmnd.Prelude.Chars.{Text}
use linux_cmnd.Result.{ok}
use linux_cmnd.Result.Chain.{Ensures, Ensures-ok, Ensures-bind, Ensures-refuse}
use linux_cmnd.CloneExport.Multipart.{Part, delimiter_of, prefix_of, crlf, blank_line}
use linux_cmnd.CloneExport.Multipart.Exact.{joined, multipart-AreParts}
use linux_cmnd.CloneExport.Received.{Received, ReceiveLibrary, file_of, files_of, extract_files}
use linux_cmnd.CloneExport.Received.Sound.{inspect_received_zip-IsReceived}

abbrev pub sum_bytes : List Received → ℕ
sum_bytes [] = 0
sum_bytes (r ∷ rest) = r.bytes + sum_bytes rest

abbrev contents : List Part → ℕ
contents [] = 0
contents (p ∷ rest) = length p.content + contents rest

pub sum_bytes-append : (xs ys : List Received) → sum_bytes (xs ++ ys) ≡ sum_bytes xs + sum_bytes ys
sum_bytes-append [] ys = omega arith
sum_bytes-append (x ∷ xs) ys = omega (arith, sum_bytes-append xs ys)

-- A text in the middle of another is not longer.
middle_le :
    (before inner rest : Text) (n : ℕ)
    → n ≤ length rest
    → length inner + n ≤ length (before ++ (inner ++ rest))
middle_le before inner rest n h =
    omega (arith, length-append before (inner ++ rest), length-append inner rest)

behind_le : (before rest : Text) (n : ℕ) → n ≤ length rest → n ≤ length (before ++ rest)
behind_le before rest n h = omega (arith, length-append before rest)

joined_le :
    (delimiter tail : Text) (parts : List Part)
    → contents parts ≤ length (joined delimiter tail parts)
joined_le delimiter tail [] = omega arith
joined_le delimiter tail (p ∷ []) =
    behind_le p.headers _ _ (middle_le blank_line p.content (delimiter ++ tail) 0 (omega arith))
joined_le delimiter tail (p ∷ q ∷ rest) =
    let later = joined_le delimiter tail (q ∷ rest) in
    behind_le p.headers _ _
      (middle_le blank_line p.content _ _ (behind_le delimiter _ _ (behind_le crlf _ _ later)))

module _ (lib : ReceiveLibrary) where
  record AreMeasured (n : ℕ) (files : List Received) : Type 0 where
    pub few : sum_bytes files ≤ n

  file_of_bytes :
      (name : Option Text) (part : Part)
      → Ensures (AreMeasured (length part.content)) (file_of lib name part)
  file_of_bytes none part = Ensures-refuse _ _ _ λ _. Ensures-ok _ (record { few = omega arith })
  file_of_bytes (some filename) part = Ensures-bind _ _ λ r i.
      let size = ((inspect_received_zip-IsReceived lib part.content).holds r i).sized in
      Ensures-ok _ (record { few = omega (arith, size) })

  files_of_bytes : (parts : List Part) → Ensures (AreMeasured (contents parts)) (files_of lib parts)
  unfolding files_of
  files_of_bytes [] = Ensures-ok _ (record { few = omega arith })
  files_of_bytes (part ∷ rest) = Ensures-bind _ _ λ file f. Ensures-bind _ _ λ others o.
      let one = ((file_of_bytes (lib.filename part.headers) part).holds file f).few in
      let more = ((files_of_bytes rest).holds others o).few in
      Ensures-ok _ (record { few = omega (arith, one, more, sum_bytes-append file others) })

  -- The files of a body have no more bytes than the body.
  extracted :
      (content_type : String) (body : Text)
      → Ensures (AreMeasured (length body)) (extract_files lib content_type body)
  unfolding extract_files
  extracted content_type body = Ensures-bind _ _ λ boundary _. Ensures-bind _ _ λ parts p.
      Ensures-bind _ _ λ files f. Ensures-refuse _ _ _ λ _.
        let (rest, split, a) = multipart-AreParts boundary body parts p in
        let inner : contents parts ≤ length rest =
          subst (λ t. contents parts ≤ length t) (sym a.exact)
            (joined_le (delimiter_of boundary) a.tail parts) in
        let outer : contents parts ≤ length body =
          subst (λ t. contents parts ≤ length t) (sym split)
            (behind_le (prefix_of boundary) rest _ inner) in
        Ensures-ok _
          (record { few = omega (arith, outer, ((files_of_bytes parts).holds files f).few) })

  pub extract_files_bytes :
      (content_type : String) (body : Text) (files : List Received)
      → extract_files lib content_type body ≡ ok files
      → sum_bytes files ≤ length body
  extract_files_bytes content_type body files h = ((extracted content_type body).holds files h).few
