-- ===== src/Auth/BackupCodes/Laws.antt =====
-- Backup codes work once, and only those of the newest set.
use safe_pass.Base.{
  ℕ, ◌+◌, ◌%◌, ◌≤◌, ◌≡◌, ◌≢◌, refl, ◌∙◌, Bool, false, ◌&&◌, none, List, [], ◌∷◌, ◌==◌, count,
  delete, map, length, All, All-update, All-intro, count-zero, count-append, count-delete,
  count-delete_zero, arith, if◌then◌else◌,
}
use safe_pass.Envelope.Base64.{Text, Bytes}
use safe_pass.Auth.Store.{AuthDb, BackupCode}
use safe_pass.Auth.Session.{is_none}
use safe_pass.Auth.BackupCodes.{
  digest, letters, format_code, new_codes, issue_backup_codes, spend_code, remaining_backup_codes,
}

-- The successes of simultaneous redemptions that had all selected the same row.
unfoldable pub spend_all : List ℕ → ℕ → AuthDb → ℕ
spend_all [] id db = 0
spend_all (now ∷ later) id db =
    (if (spend_code db now id).1 then 1 else 0) + spend_all later id (spend_code db now id).0

abbrev IsUsed : ℕ → AuthDb → Type 0
IsUsed id db = All (λ c. (c.id == id && is_none c.used_at) ≡ false) db.backup_codes

spend_code-IsUsed : (db : AuthDb) (now id : ℕ) → IsUsed id (spend_code db now id).0
unfolding spend_code
spend_code-IsUsed db now id =
    All-update (λ _. Unit {0}) _ (λ (c : BackupCode). c.id == id && is_none c.used_at) _
      db.backup_codes (All-intro _ (λ x. tt) db.backup_codes) (λ x hit _. ground arith)
      (λ x miss _. miss)

used-fails : (db : AuthDb) (now id : ℕ) → IsUsed id db → (spend_code db now id).1 ≡ false
unfolding spend_code
used-fails db now id used =
    ground
      (arith, count-zero (λ (c : BackupCode). c.id == id && is_none c.used_at) db.backup_codes used)

spend_all-used : (nows : List ℕ) (id : ℕ) (db : AuthDb) → IsUsed id db → spend_all nows id db ≡ 0
unfolding spend_all
spend_all-used [] id db used = refl
spend_all-used (now ∷ later) id db used =
    rw (used-fails db now id used) (
      omega (arith, spend_all-used later id (spend_code db now id).0 (spend_code-IsUsed db now id)))

-- Of any number of redemptions that reach the conditional update with one row, at most one succeeds.
pub spend_all-le : (nows : List ℕ) (id : ℕ) (db : AuthDb) → spend_all nows id db ≤ 1
unfolding spend_all
spend_all-le [] id db = omega arith
spend_all-le (now ∷ later) id db =
    ground (arith, spend_all-used later id (spend_code db now id).0 (spend_code-IsUsed db now id))

letters-mod : (raw : Bytes) → letters (map (λ b. b % 31) raw) ≡ letters raw
unfolding letters
letters-mod [] = refl
letters-mod (b ∷ bs) = let same : b % 31 % 31 ≡ b % 31 = omega arith in rw (same, letters-mod bs)

-- A code depends on its random bytes through their remainders modulo 31 alone.
pub format_code-mod : (raw : Bytes) → format_code (map (λ b. b % 31) raw) ≡ format_code raw
unfolding format_code
format_code-mod raw = rw (letters-mod raw)

-- Issuing a set leaves the user no code of an older one, and other users all of theirs.
new_codes-foreign :
    (sha256 : Text → Bytes) (user_id : ℕ) (fresh : List (ℕ × Text)) (q : BackupCode → Bool)
    → ((c : BackupCode) → c.user_id ≡ user_id → q c ≡ false)
    → count q (new_codes sha256 user_id fresh) ≡ 0
unfolding new_codes count
new_codes-foreign sha256 user_id [] q off = refl
new_codes-foreign sha256 user_id ((id, code) ∷ rest) q off =
    let c : BackupCode = record {
      id = id;
      user_id = user_id;
      code_digest = digest sha256 code;
      used_at = none;
    } in
    let out : q c ≡ false = off c refl in
    rw out (omega (arith, new_codes-foreign sha256 user_id rest q off))

new_codes-own :
    (sha256 : Text → Bytes) (user_id : ℕ) (raws : List (ℕ × Bytes))
    → count
        (λ c. c.user_id == user_id && is_none c.used_at)
        (new_codes sha256 user_id (map (λ (r : ℕ × Bytes). (r.0, format_code r.1)) raws))
      ≡ length raws
unfolding new_codes count
new_codes-own sha256 user_id [] = refl
new_codes-own sha256 user_id (r ∷ rest) = ground (arith, new_codes-own sha256 user_id rest)

-- Issuing a set of codes leaves the user with exactly as many unused codes as the set has, however
-- many there were before, and leaves every other user's number of unused codes as it was.
pub issue_backup_codes-remaining :
    (sha256 : Text → Bytes) (db : AuthDb) (user_id other : ℕ) (raws : List (ℕ × Bytes))
    → other ≢ user_id
    → (remaining_backup_codes (issue_backup_codes sha256 db user_id raws).0 user_id ≡ length raws)
      × (remaining_backup_codes (issue_backup_codes sha256 db user_id raws).0 other
          ≡ remaining_backup_codes db other)
unfolding issue_backup_codes remaining_backup_codes
issue_backup_codes-remaining sha256 db user_id other raws apart =
    let fresh = map (λ (r : ℕ × Bytes). (r.0, format_code r.1)) raws in
    let kept = delete (λ (c : BackupCode). c.user_id == user_id) db.backup_codes in
    (
      count-append (λ c. c.user_id == user_id && is_none c.used_at) (new_codes sha256 user_id fresh)
            kept
          ∙ omega (
            arith,
            new_codes-own sha256 user_id raws,
            count-delete_zero (λ (c : BackupCode). c.user_id == user_id)
                (λ c. c.user_id == user_id && is_none c.used_at) db.backup_codes
                (λ x h. ground arith),
          ),
      count-append (λ c. c.user_id == other && is_none c.used_at) (new_codes sha256 user_id fresh)
            kept
          ∙ omega (
            arith,
            new_codes-foreign sha256 user_id fresh (λ c. c.user_id == other && is_none c.used_at)
                (λ c own. ground arith),
            count-delete (λ (c : BackupCode). c.user_id == user_id)
                (λ c. c.user_id == other && is_none c.used_at) db.backup_codes
                (All-intro _ (λ x h. ground arith) db.backup_codes),
          ),
    )
