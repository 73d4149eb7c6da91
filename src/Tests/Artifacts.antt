-- ===== src/Tests/Artifacts.antt =====
-- The theorems on src/cmnd_linux/artifacts.py at a concrete archive.
use linux_cmnd.Prelude.{◌≡◌, refl, true, List, [], ◌∷◌, ◌++◌}
use linux_cmnd.Prelude.Chars.{Text, codes}
use linux_cmnd.Result.{ok}
use linux_cmnd.Artifacts.Members.{Member, Limits, PathLibrary, Planned, plan_extraction}
use linux_cmnd.Artifacts.Members.Safe.{IsPlan, plan_extraction-IsPlan}

abbrev joined : List Text → Text
joined [] = []
joined (part ∷ rest) = part ++ (b'/' ∷ joined rest)

abbrev library : PathLibrary
library = record { as_posix = joined; casefold = λ t. t; within_target = λ parts. true }

abbrev limits : Limits
limits = record { max_files = 20000; max_bytes = 4294967296; max_ratio = 200 }

abbrev first : Member
first = record {
  filename = codes "cas\\cas.sql";
  file_size = 90;
  compress_size = 30;
  external_attr = 0;
}

abbrev second : Member
second = record {
  filename = codes "CMS/./t.sql";
  file_size = 80;
  compress_size = 30;
  external_attr = 0;
}

abbrev planned : List Planned
planned =
    (first, codes "cas" ∷ codes "cas.sql" ∷ []) ∷ (second, codes "CMS" ∷ codes "t.sql" ∷ []) ∷ []

made : plan_extraction library limits (first ∷ second ∷ []) ≡ ok planned
unfolding plan_extraction linux_cmnd.Result.Chain.◌>>=◌ linux_cmnd.Result.Chain.refuse
    linux_cmnd.Simulator.Url.posix_parts linux_cmnd.Config.PackageUrl.split_path
made = refl

plan_extraction-IsPlan_example : IsPlan library limits (first ∷ second ∷ []) planned
plan_extraction-IsPlan_example =
    plan_extraction-IsPlan library limits (first ∷ second ∷ []) planned made
