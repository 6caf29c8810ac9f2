-- ===== src/Auth/BackupCodes.antt =====
-- backend/src/modules/auth/backup-codes.ts: single-use codes, stored as digests.
pub mod Laws
use safe_pass.Base.{
  ℕ, ◌+◌, ◌*◌, ◌%◌, Bool, true, false, ◌&&◌, ◌||◌, not, Option, none, some, List, [], ◌∷◌, ◌++◌,
  ◌==◌, find, filter, count, update, delete, any, map, take, drop, length, get_elem?, if◌then◌else◌,
}
use safe_pass.Envelope.Base64.{Text, Bytes}
use safe_pass.Json.{is_white_space, to_lower}
use safe_pass.Tables.{text_eq}
use safe_pass.Auth.Store.{AuthDb, BackupCode}
use safe_pass.Auth.Session.{is_none}
use safe_pass.Auth.Guard.{codes}

abbrev pub code_count : ℕ
code_count = 10

-- Characters that people do not confuse.
abbrev pub alphabet : Text
alphabet = codes "abcdefghjkmnpqrstuvwxyz23456789"

abbrev char_at : Text → ℕ → Text
char_at s i = elim (get_elem? s i) [ none ↦ [] | some c ↦ c ∷ [] ]

-- The loop of `formatCode`.
unfoldable pub letters : Bytes → Text
letters [] = []
letters (b ∷ bs) = char_at alphabet (b % length alphabet) ++ letters bs

-- `formatCode`
unfoldable pub format_code : Bytes → Text
unfolding letters
format_code raw = let out = letters raw in take 4 out ++ 45 ∷ drop 4 out

-- `normalize`: `code.replace(/[\s-]/g, '').toLowerCase()`
unfoldable pub normalize : Text → Text
unfolding is_white_space to_lower
normalize code = map to_lower (filter (λ c. not (is_white_space c || c == 45)) code)

-- The digest of a code: SHA-256 of its normal form.
abbrev pub digest : (Text → Bytes) → Text → Bytes
digest sha256 code = sha256 (normalize code)

-- `createMany`, with the ids that the database client draws.
unfoldable pub new_codes : (Text → Bytes) → ℕ → List (ℕ × Text) → List BackupCode
new_codes sha256 user_id [] = []
new_codes sha256 user_id ((id, code) ∷ rest) =
    record { id = id; user_id = user_id; code_digest = digest sha256 code; used_at = none }
    ∷ new_codes sha256 user_id rest

-- `issueBackupCodes`, with the random bytes of its codes: the codes, and the database.
unfoldable pub issue_backup_codes :
    (Text → Bytes) → AuthDb → ℕ → List (ℕ × Bytes) → AuthDb × List Text
unfolding new_codes
issue_backup_codes sha256 db user_id raws =
    let fresh = map (λ (r : ℕ × Bytes). (r.0, format_code r.1)) raws in
    (
      record db {
        backup_codes =
            new_codes sha256 user_id fresh ++ delete (λ c. c.user_id == user_id) db.backup_codes;
      },
      map (λ (r : ℕ × Bytes). format_code r.1) raws,
    )

-- An unused code of the user with the digest.
abbrev pub is_candidate : ℕ → Bytes → BackupCode → Bool
is_candidate user_id candidate c =
    (c.user_id == user_id && is_none c.used_at) && text_eq c.code_digest candidate

-- The first half of `redeemBackupCode`: the row that a code names, if it is still unused.
unfoldable pub select_code : (Text → Bytes) → AuthDb → ℕ → Text → Option BackupCode
select_code sha256 db user_id code =
    find (is_candidate user_id (digest sha256 code)) db.backup_codes

-- The second half: the conditional update of that row.
unfoldable pub spend_code : AuthDb → ℕ → ℕ → AuthDb × Bool
spend_code db now id =
    let unused = λ (c : BackupCode). c.id == id && is_none c.used_at in
    (
      record db {
        backup_codes = update unused (λ c. record c { used_at = some now }) db.backup_codes;
      },
      count unused db.backup_codes == 1,
    )

-- `redeemBackupCode` with nothing between its halves.
unfoldable pub redeem_backup_code : (Text → Bytes) → AuthDb → ℕ → ℕ → Text → AuthDb × Bool
unfolding select_code spend_code
redeem_backup_code sha256 db now user_id code = elim (select_code sha256 db user_id code) [
  | none ↦ (db, false)
  | some row ↦ spend_code db now row.id
]

-- `remainingBackupCodes`
unfoldable pub remaining_backup_codes : AuthDb → ℕ → ℕ
remaining_backup_codes db user_id =
    count (λ c. c.user_id == user_id && is_none c.used_at) db.backup_codes
