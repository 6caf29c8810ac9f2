-- ===== src/Secrets/Concurrency.antt =====
-- Optimistic concurrency: the revision is checked by the write itself.
use safe_pass.Base.{
  ℕ, ◌+◌, ◌≤◌, ◌≡◌, refl, sym, ap, ◌∙◌, Bool, true, false, ◌&&◌, not, ◌⊎◌, ◌≢◌, filter, find_sound,
  find-update, filter-update, Option, none, some, List, [], ◌∷◌, ◌==◌, find, count, update, All,
  All-map, All-update, All-intro, count-zero, count-zero_All, count-update_same, Bool-cases, inl,
  inr, arith, if◌then◌else◌,
}
use mathlib.Core.Option.{some-injective}
use safe_pass.Envelope.{bytes}
use safe_pass.Errors.{
  Result, Failure, ok, err, api, revision_conflict, Result-cases, guard, required, ◌>>=◌, ◌>>◌,
  ok-injective, on_required, on_guard,
}
use safe_pass.Store.{Db, Secret}
use safe_pass.Tables.Inserts.{insert_secret_tags-eq-ok}
use safe_pass.Secrets.{Save, commit_save, replace_tags, matches, write_save, revision_is}

-- The saves that were accepted, of saves whose transactions run one after another.
abbrev accepted : Result Db → ℕ
accepted (ok db) = 1
accepted (err x) = 0

abbrev left : Result Db → Db → Db
left (ok db') db = db'
left (err x) db = db

-- How many of the saves were accepted, whatever their order.
unfoldable pub accepted_saves : List Save → Db → ℕ
accepted_saves [] db = 0
accepted_saves (s ∷ rest) db =
    accepted (commit_save db s) + accepted_saves rest (left (commit_save db s) db)

replace_tags-secrets :
    (s : ℕ) (ts : Option (List ℕ)) (db : Db) {db' : Db}
    → replace_tags s ts db ≡ ok db'
    → db'.secrets ≡ db.secrets
unfolding replace_tags
replace_tags-secrets s none db e = ap (λ d. d.secrets) (sym (ok-injective e))
replace_tags-secrets s (some ts) db e =
    let (_, one) = insert_secret_tags-eq-ok _ _ _ e in rw (← one) refl

-- An accepted save has written the one row that it names, and raised its revision by one.
pub commit_save-secrets :
    (db : Db) (save : Save) {db' : Db}
    → commit_save db save ≡ ok db'
    → (count (matches save) db.secrets ≡ 1)
      × (db'.secrets ≡ update (matches save) (write_save save) db.secrets)
unfolding commit_save
commit_save-secrets db save e = elim (Bool-cases (count (matches save) db.secrets == 1)) [
  | inl one ↦ on_guard _ _ _ (rw one at e) λ _ e1. (ground arith, replace_tags-secrets _ _ _ e1)
  | inr clash ↦ on_required _ _ _ (rw clash at e) λ _ _ e1. cc
]

-- Saves of one secret that were all made against one revision.
abbrev IsRival : ℕ → ℕ → ℕ → Save → Type 0
IsRival v s r save = (save.vault_id ≡ v) × (save.secret_id ≡ s) × (save.revision ≡ some r)

-- No row is at the revision any more.
abbrev IsSpent : ℕ → ℕ → ℕ → Db → Type 0
IsSpent v s r db = All (λ x. (x.id == s && x.vault_id == v && x.revision == r) ≡ false) db.secrets

module _ (v s r : ℕ) where
  commit_save-IsSpent :
      (db : Db) (save : Save) {db' : Db}
      → IsRival v s r save
      → commit_save db save ≡ ok db'
      → IsSpent v s r db'
  commit_save-IsSpent db save rival e = rw (commit_save-secrets db save e).1 (
      All-update _ _ (matches save) (write_save save) db.secrets
        (All-intro (λ _. Unit {0}) (λ x. tt) db.secrets) (λ x hit _. ground arith)
        (λ x miss _. ground arith))

  spent-refuses :
      (db : Db) (save : Save)
      → IsRival v s r save
      → IsSpent v s r db
      → (x : Failure) × (commit_save db save ≡ err x)
  spent-refuses db save rival spent = elim (Result-cases (commit_save db save)) [
    | inl (db', e) ↦
        let none' : count (matches save) db.secrets ≡ 0 =
          count-zero _ db.secrets (All-map _ _ (λ x h. ground arith) db.secrets spent) in
        absurd (omega (arith, (commit_save-secrets db save e).0))
    | inr failed ↦ failed
  ]

  spent-none :
      (saves : List Save) (db : Db)
      → All (IsRival v s r) saves
      → IsSpent v s r db
      → accepted_saves saves db ≡ 0
  unfolding accepted_saves
  spent-none [] db rivals spent = refl
  spent-none (save ∷ rest) db (rival, rivals) spent =
      let (x, failed) = spent-refuses db save rival spent in
      rw failed (omega (arith, spent-none rest db rivals spent))

  -- Of any number of saves of one secret that were made against the same revision, in whatever order
  -- their transactions run, at most one is accepted.
  pub accepted_saves-le :
      (saves : List Save) (db : Db) → All (IsRival v s r) saves → accepted_saves saves db ≤ 1
  unfolding accepted_saves
  accepted_saves-le [] db rivals = omega arith
  accepted_saves-le (save ∷ rest) db (rival, rivals) = elim (Result-cases (commit_save db save)) [
    | inl (db', done) ↦
        rw done (omega (arith, spent-none rest db' rivals (commit_save-IsSpent db save rival done)))
    | inr (x, failed) ↦ rw failed (omega (arith, accepted_saves-le rest db rivals))
  ]

count_one :
    {A : Type 0} (p q : A → Bool) (xs : List A) {x : A}
    → count p xs ≡ 1
    → find p xs ≡ some x
    → count (λ y. p y && q y) xs ≡ (if q x then 1 else 0)
unfolding count find
count_one p q [] one e = cc
count_one p q (y ∷ ys) {x} one e = elim (Bool-cases (p y)) [
  | inl hit ↦
      let none' : All (λ z. p z ≡ false) ys = count-zero_All p ys (ground arith) in
      let rest = count-zero (λ z. p z && q z) ys (All-map _ _ (λ z h. ground arith) ys none') in
      ground (arith, rest)
  | inr miss ↦
      let tail : count p ys ≡ 1 = ground arith in
      let found : find p ys ≡ some x = ground arith in
      ground (arith, count_one p q ys {x = x} tail found)
]

commit_save-accepts :
    (db : Db) (save : Save)
    → count (matches save) db.secrets ≡ 1
    → save.folder_id ≡ none
    → save.tag_ids ≡ none
    → commit_save db save
      ≡ ok (record db { secrets = update (matches save) (write_save save) db.secrets })
unfolding commit_save replace_tags guard ◌>>=◌ ◌>>◌
commit_save-accepts db save one folder tags =
    let test : (count (matches save) db.secrets == 1) ≡ true = ground arith in
    rw (test, folder, tags)

commit_save-conflict :
    (db : Db) (save : Save) (current : Secret)
    → find (λ s. s.id == save.secret_id && s.vault_id == save.vault_id) db.secrets ≡ some current
    → count (matches save) db.secrets ≡ 0
    → commit_save db save ≡ err (api revision_conflict)
unfolding commit_save required ◌>>=◌
commit_save-conflict db save current there none' = rw (none', there)

revision_is-same : (o : Option ℕ) (r : ℕ) → revision_is o r ≡ true → o ≡ some r
revision_is-same none r h = cc
revision_is-same (some n) r h = ap some (ground arith)

revision_is-other : (o : Option ℕ) (r : ℕ) → revision_is o r ≡ false → o ≢ some r
revision_is-other none r h e = cc
revision_is-other (some n) r h e = let same : n ≡ r = some-injective _ _ e in ground arith

-- The secret that a save names.
abbrev is_named : Save → Secret → Bool
is_named save s = s.id == save.secret_id && s.vault_id == save.vault_id

-- The database after a save: the secret has the title, the fields and the folder of the save and the
-- next revision, and all other secrets are as they were.
abbrev pub IsSaved : Db → Save → Secret → Db → Type 0
IsSaved db save current db' =
    (find (is_named save) db'.secrets
      ≡ some (record current {
        title = bytes save.title;
        field_values = save.field_values;
        folder_id = none;
        revision = current.revision + 1;
      }))
    × (filter (λ s. not (is_named save s)) db'.secrets
        ≡ filter (λ s. not (is_named save s)) db.secrets)

-- A save of an existing secret, of which there is one row, that leaves its folder at none and its
-- tags as they are: if its revision is the current one of the secret, it is accepted; afterwards the
-- secret has the title and the fields of the save and the next revision, whatever else it has is as
-- before, and so are all other secrets. With another revision it gets REVISION_CONFLICT.
pub commit_save-decides :
    (db : Db) (save : Save) (current : Secret)
    → count (is_named save) db.secrets ≡ 1
    → find (is_named save) db.secrets ≡ some current
    → save.folder_id ≡ none
    → save.tag_ids ≡ none
    → ((save.revision ≡ some current.revision)
        × (db' : Db) × (commit_save db save ≡ ok db')
        × IsSaved db save current db')
      ⊎ ((save.revision ≢ some current.revision)
          × (commit_save db save ≡ err (api revision_conflict)))
commit_save-decides db save current one there folder tags =
    let rows =
      count_one (is_named save) (λ s. revision_is save.revision s.revision) db.secrets one there in
    let named : is_named save current ≡ true = find_sound (is_named save) db.secrets there in
    elim (Bool-cases (revision_is save.revision current.revision)) [
      | inl fits ↦
          let hit : matches save current ≡ true = ground arith in
          let plain : write_save save current ≡ record current {
            title = bytes save.title;
            field_values = save.field_values;
            folder_id = none;
            revision = current.revision + 1;
          } =
            rw folder refl in
          inl (
            revision_is-same save.revision current.revision fits,
            record db { secrets = update (matches save) (write_save save) db.secrets },
            commit_save-accepts db save (rows ∙ rw fits refl) folder tags,
            (
              find-update (is_named save) (matches save) (write_save save) db.secrets (λ y. refl)
                    there
                  ∙ rw hit (ap some plain),
              filter-update (λ s. not (is_named save s)) (matches save) (write_save save) db.secrets
                  (λ y match. ground arith) (λ y. refl),
            ),
          )
      | inr stale ↦ inr (
        revision_is-other save.revision current.revision stale,
        commit_save-conflict db save current there (rows ∙ rw stale refl),
      )
    ]

-- An accepted save leaves as many rows with the id of its secret labelled with a generation as there
-- were before, whatever the generation.
pub commit_save-key_version :
    (db : Db) (save : Save) (k : ℕ) {db' : Db}
    → commit_save db save ≡ ok db'
    → count (λ s. s.id == save.secret_id && s.key_version == k) db'.secrets
      ≡ count (λ s. s.id == save.secret_id && s.key_version == k) db.secrets
commit_save-key_version db save k e =
    rw (commit_save-secrets db save e).1 (count-update_same _ _ _ db.secrets (λ s. refl))
