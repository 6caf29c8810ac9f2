-- ===== src/Auth/Session.antt =====
-- backend/src/modules/auth/session.ts: issuing, finding and revoking sessions.
use safe_pass.Base.{
  ℕ, ◌+◌, ◌*◌, Bool, true, false, ◌&&◌, not, Option, none, some, ◌∷◌, ◌==◌, find, count, update,
  any, leb, if◌then◌else◌,
}
use safe_pass.Envelope.Base64.{Text, Bytes}
use safe_pass.Errors.{Result, ok, internal, guard, ◌>>◌}
use safe_pass.Tables.{text_eq}
use safe_pass.Auth.Store.{AuthDb, Session}

-- `LIFETIME_MS`
abbrev pub lifetime_ms : ℕ
lifetime_ms = 7 * 24 * 60 * 60 * 1000

abbrev pub is_none {ℓ} : {A : Type ℓ} → Option A → Bool
is_none none = true
is_none (some a) = false

-- `issueSession`, with the id and the token that are drawn at random.
unfoldable pub issue_session :
    (Text → Bytes) → AuthDb → ℕ → ℕ → Text → ℕ → Option Text → Bool → Result AuthDb
issue_session digest db now id token user_id device_label pending_totp = do
  guard
      (not (any (λ s. s.id == id) db.sessions)
        && not (any (λ s. text_eq s.token_digest (digest token)) db.sessions))
      internal
  ok (record db {
    sessions =
        record {
          id = id;
          user_id = user_id;
          token_digest = digest token;
          device_label = device_label;
          expires_at = now + lifetime_ms;
          last_seen_at = now;
          revoked_at = none;
          reauth_required_at = none;
          pending_totp = pending_totp;
        }
        ∷ db.sessions;
  })

-- `findLiveSession`
unfoldable pub find_live_session : (Text → Bytes) → AuthDb → ℕ → Text → Option Session
find_live_session digest db now token =
    elim (find (λ s. text_eq s.token_digest (digest token)) db.sessions) [
      | none ↦ none
      | some s ↦
          if not (is_none s.revoked_at) then none else if leb s.expires_at now then none else some s
    ]

-- `touch`
unfoldable pub touch : AuthDb → ℕ → ℕ → AuthDb
touch db now id = record db {
  sessions = update (λ s. s.id == id) (λ s. record s { last_seen_at = now }) db.sessions;
}

-- The user's other sessions that have not been revoked.
abbrev pub is_sibling : ℕ → ℕ → Session → Bool
is_sibling user_id keep_id s = s.user_id == user_id && not (s.id == keep_id) && is_none s.revoked_at

-- `revokeAllExcept`
unfoldable pub revoke_all_except : AuthDb → ℕ → ℕ → ℕ → AuthDb
revoke_all_except db now user_id keep_id = record db {
  sessions =
      update (is_sibling user_id keep_id) (λ s. record s { revoked_at = some now }) db.sessions;
}

-- `markSiblingsForReauth`: the database, and the number of sessions that it stamped.
unfoldable pub mark_siblings_for_reauth : AuthDb → ℕ → ℕ → ℕ → AuthDb × ℕ
mark_siblings_for_reauth db now user_id current_id =
    let stamped =
      λ (s : Session). is_sibling user_id current_id s && is_none s.reauth_required_at in
    (
      record db {
        sessions = update stamped (λ s. record s { reauth_required_at = some now }) db.sessions;
      },
      count stamped db.sessions,
    )
