-- ===== src/Auth/Guard.antt =====
-- backend/src/middleware/session.ts: the guard in front of every route under /api/.
pub mod Laws
use Prim.Native.Char.{code}
use Prim.Native.String
use Prim.Native.String.{String}
use safe_pass.Base.{
  ℕ, Bool, true, false, ◌&&◌, ◌||◌, not, Option, none, some, List, [], ◌∷◌, ◌==◌, any,
  if◌then◌else◌,
}
use safe_pass.Envelope.Base64.{Text, Bytes}
use safe_pass.Errors.{
  Result, ok, err, api, auth_required, reauth_required, totp_required, ◌>>=◌, ◌>>◌, guard, required,
}
use safe_pass.Tables.{text_eq}
use safe_pass.Auth.Store.{AuthDb, Session}
use safe_pass.Auth.Session.{find_live_session, touch, is_none}

-- The code units of a text of ASCII.
abbrev pub codes : String → Text
codes String.[] = []
codes (String.◌∷◌ c s) = code c ∷ codes s

-- `API_PREFIX` of static.ts
abbrev pub api_prefix : Text
api_prefix = codes "/api/"

abbrev pub public_paths : List Text
public_paths =
    codes "/api/v1/health"
    ∷ codes "/api/v1/auth/kdf-params"
    ∷ codes "/api/v1/auth/register"
    ∷ codes "/api/v1/auth/login"
    ∷ codes "/api/v1/account/deletion-request"
    ∷ codes "/api/v1/account/deletion-confirm"
    ∷ codes "/api/v1/auth/verify"
    ∷ []

abbrev pub reauth_route : Text
reauth_route = codes "/api/v1/auth/reauth"

abbrev pub pending_totp_allowed : List Text
pending_totp_allowed =
    codes "/api/v1/auth/totp/challenge"
    ∷ codes "/api/v1/auth/totp/verify"
    ∷ codes "/api/v1/auth/sessions"
    ∷ []

unfoldable pub has : List Text → Text → Bool
has [] path = false
has (p ∷ ps) path = text_eq p path || has ps path

-- `path.startsWith(prefix)`
unfoldable pub starts_with : Text → Text → Bool
starts_with [] path = true
starts_with (c ∷ cs) [] = false
starts_with (c ∷ cs) (d ∷ ds) = c == d && starts_with cs ds

-- `url.split('?')[0]`
unfoldable pub path_of : Text → Text
path_of [] = []
path_of (c ∷ cs) = let rest = path_of cs in if c == 63 then [] else c ∷ rest

-- The guard: the database, and the session that the route will see.
unfoldable pub session_guard :
    (Text → Bytes) → AuthDb → ℕ → Text → Option Text → Result (AuthDb × Option Session)
session_guard digest db now url cookie =
    let path = path_of url in
    if not (starts_with api_prefix path)
    then ok (db, none)
    else if has public_paths path
    then ok (db, none)
    else (do
      token ← required cookie (api auth_required)
      guard (not (text_eq token [])) (api auth_required)
      session ← required (find_live_session digest db now token) (api auth_required)
      guard (not (not (is_none session.reauth_required_at) && not (text_eq path reauth_route)))
          (api reauth_required)
      guard (not (session.pending_totp && not (has pending_totp_allowed path))) (api totp_required)
      ok (touch db now session.id, some session))
