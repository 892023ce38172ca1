-- ===== src/Database/Schema.antt =====
-- Opening a database (`_connect` of db.py).
use mcp_gatekeeper.Prelude.{
  List, [], ◌∷◌, ◌++◌, true, ◌||◌, Text, any, all, text_eq, text_eq_iff, ◌≡◌, refl, ap, &&_iff,
  arith,
}
use mcp_gatekeeper.Database.{Database, create_if_missing, migrate, migrations, connect}

any-append :
    (name : Text) (xs ys : List Text)
    → any (text_eq name) (xs ++ ys) ≡ (any (text_eq name) xs || any (text_eq name) ys)
any-append name [] ys = refl
any-append name (x ∷ xs) ys = ground (arith, any-append name xs ys)

create-keeps :
    (n name : Text) (schema : List Text)
    → any (text_eq n) schema ≡ true
    → any (text_eq n) (create_if_missing name schema) ≡ true
create-keeps n name schema h = ground (arith, any-append n schema (name ∷ []))

migrate-keeps :
    (n : Text) (names schema : List Text)
    → any (text_eq n) schema ≡ true
    → any (text_eq n) (migrate names schema) ≡ true
unfolding migrate
migrate-keeps n [] schema h = h
migrate-keeps n (name ∷ names) schema h =
    migrate-keeps n names (create_if_missing name schema) (create-keeps n name schema h)

create-has :
    (name : Text) (schema : List Text) → any (text_eq name) (create_if_missing name schema) ≡ true
create-has name schema =
    ground (arith, any-append name schema (name ∷ []), (text_eq_iff name name).1 refl)

has_all :
    (names schema : List Text) → all (λ n. any (text_eq n) (migrate names schema)) names ≡ true
unfolding migrate
has_all [] schema = refl
has_all (name ∷ names) schema = ground (
  arith,
  has_all names (create_if_missing name schema),
  migrate-keeps name names (create_if_missing name schema) (create-has name schema),
)

migrate-nothing :
    (names schema : List Text)
    → all (λ n. any (text_eq n) schema) names ≡ true
    → migrate names schema ≡ schema
unfolding migrate
migrate-nothing [] schema h = refl
migrate-nothing (name ∷ names) schema h =
    let (here, rest) = (&&_iff (any (text_eq name) schema) _).0 h in
    rw here (migrate-nothing names schema rest)

-- Opening leaves every table and index in the database, and no row is touched; opening it once more, a
-- fresh file or one that was used before, changes nothing.
pub connect-connect :
    (db : Database)
    → (all (λ n. any (text_eq n) (connect db).disk.schema) migrations ≡ true)
      × ((connect db).disk.approvals ≡ db.disk.approvals)
      × ((connect db).disk.events ≡ db.disk.events)
      × (connect (connect db) ≡ connect db)
unfolding connect
connect-connect db = (
  has_all migrations db.disk.schema,
  refl,
  refl,
  ap (λ (schema : List Text). record (connect db) { disk = record db.disk { schema = schema } })
      (migrate-nothing migrations (migrate migrations db.disk.schema)
        (has_all migrations db.disk.schema)),
)
