-- ===== src/Updates/Fetch.antt =====
-- `fetch` and `download_asset` of src/cmnd_linux/updates.py. The network, `urlsplit`, the clock and
-- SHA-256 are not the program's: they are the fields of `Net`.
pub mod Safe
use Prim.Native.String.{◌++◌ as ◌<>◌}
use linux_cmnd.Prelude.{
  ℕ, zero, suc, ◌+◌, String, Bool, true, false, not, ◌&&◌, ◌||◌, Option, none, some, List, [], ◌∷◌,
  ◌++◌, leb, ltb, ◌==◌, str_eq, all, any, length, drop, one_of, if◌then◌else◌,
}
use linux_cmnd.Prelude.Chars.{Text, codes, is_digit, starts_with, text_eq}
use linux_cmnd.Result.{Error, Result, ok, err, update_error, ◌>>=◌, ◌>>◌, refuse}
use linux_cmnd.Updates.Release.{Asset}

-- What `urlsplit` returns. Reading the port raises `ValueError` where it is no number below 65536.
pub record Url : Type 0 where
  pub scheme : String
  pub hostname : Option String
  pub username : Option String
  pub password : Option String
  pub port : Result (Option ℕ)

-- A request, and whether it carries the `Authorization` header.
pub record Request : Type 0 where
  pub url : String
  pub authorized : Bool

-- A chunk of the body, and whether the deadline has passed when it is read.
pub record Chunk : Type 0 where
  pub payload : Text
  pub late : Bool

-- What `opener.open` does: a response, an `HTTPError` with its `Location`, or another exception.
pub data Answer : Type 0 where
  opened : List Chunk → Answer
  http_error : ℕ → String → Answer
  broken : Error → Answer

-- The requests that were made, the newest first.
abbrev pub Requests : Type 0
Requests = List Request

pub record Net : Type 0 where
  pub urlsplit : String → Url
  pub answer : Requests → Request → Answer
  pub sha256_hex : Text → String

-- `API`
abbrev pub api : String
api = "https://api.github.com/repos/MusicCityTelecom/linux-cmnd"

-- `/assets/[1-9][0-9]*` after `/releases`
abbrev pub asset_number : Text → Bool
asset_number [] = false
asset_number (c ∷ cs) = leb b'1' c && leb c b'9' && all is_digit cs

-- `/releases(?:\?per_page=100|/assets/[1-9][0-9]*)`
unfoldable pub is_endpoint : String → Bool
is_endpoint path =
    text_eq (codes path) (codes "/releases?per_page=100")
    || (starts_with (codes path) (codes "/releases/assets/") && asset_number (drop 17 (codes path)))

abbrev pub is_none {ℓ} : {A : Type ℓ} → Option A → Bool
is_none none = true
is_none (some a) = false

abbrev pub asset_host : Option String → Bool
asset_host none = false
asset_host (some h) =
    one_of h ("release-assets.githubusercontent.com" ∷ "objects.githubusercontent.com" ∷ [])

-- `port in (None, 443)`
abbrev pub https_port : Option ℕ → Bool
https_port none = true
https_port (some p) = p == 443

abbrev pub untrusted : Error
untrusted = update_error "untrusted release asset redirect"

-- The test on the target of a redirect.
unfoldable pub check_redirect : Url → Result (Unit {0})
check_redirect parsed = do
  refuse
      (not (
        str_eq parsed.scheme "https"
        && asset_host parsed.hostname
        && is_none parsed.username
        && is_none parsed.password))
      untrusted
  port ← parsed.port
  refuse (not (https_port port)) untrusted

abbrev pub redirects : ℕ → Bool
redirects code = any (λ c. code == c) (301 ∷ 302 ∷ 303 ∷ 307 ∷ 308 ∷ [])

module _ (net : Net) where
  open net use {urlsplit, answer, sha256_hex}

  abbrev pub Opened : Type 0
  Opened = Result (List Chunk) × Requests

  -- The body of the `for` loop, after the answer; `next` is the rest of the loop. A redirected
  -- request carries no credential.
  unfoldable pub redirected : (Request → Requests → Opened) → Requests → String → Opened
  redirected next made location = elim (check_redirect (urlsplit location)) [
    | err e ↦ (err e, made)
    | ok _ ↦ next (record { url = location; authorized = false }) made
  ]

  unfoldable pub react : Bool → (Request → Requests → Opened) → Requests → Answer → Opened
  unfolding redirected
  react binary next made (opened chunks) = (ok chunks, made)
  react binary next made (broken e) = (err e, made)
  react binary next made (http_error status location) =
      if not binary || not (redirects status)
      then (err (update_error "GitHub update request failed"), made)
      else redirected next made location

  -- The `for` loop with the rounds that are left.
  unfoldable pub attempt : ℕ → Bool → Request → Requests → Opened
  unfolding react
  attempt zero binary request made = (err (update_error "too many release asset redirects"), made)
  attempt (suc rounds) binary request made =
      react binary (attempt rounds binary) (request ∷ made) (answer made request)

-- The `while` loop over the body, from what was read before.
unfoldable pub read_body : ℕ → Text → List Chunk → Result Text
read_body limit acc [] = ok acc
read_body limit acc (chunk ∷ rest) =
    let more = read_body limit (acc ++ chunk.payload) rest in
    if ltb limit (length (acc ++ chunk.payload)) || chunk.late
    then err (update_error "release response exceeded bounds")
    else more

module _ (net : Net) where
  -- `token` says whether `credential` found one. The body is what the source returns or writes.
  unfoldable pub fetch : String → Bool → Bool → ℕ → Requests → Result Text × Requests
  unfolding attempt read_body is_endpoint
  fetch path token binary limit made =
      if is_endpoint path
      then (let (response, made') =
            attempt net 5 binary (record { url = api <> path; authorized = token }) made in
          ((response >>= λ chunks. read_body limit [] chunks), made'))
      else (err (update_error "updater accepts only fixed GitHub release endpoints"), made)

  -- The check of what was downloaded against the size and the digest of the release.
  unfoldable pub verify_asset : Asset → Text → Result Text
  verify_asset asset content =
      if length content == asset.size && str_eq ("sha256:" <> net.sha256_hex content) asset.digest
      then ok content
      else err (update_error "release asset size/SHA-256 verification failed")

  -- `path` is '/releases/assets/' with the asset's ID in decimal.
  unfoldable pub download_asset : Asset → String → Bool → ℕ → Requests → Result Text × Requests
  unfolding fetch verify_asset
  download_asset asset path token limit made =
      let (body, made') = fetch path token true limit made in (body >>= verify_asset asset, made')
