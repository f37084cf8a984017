-- ===== src/Mysql/Account.antt =====
-- The rows that driver_mysql.c inserts into the table `request`, against its flag.
use php_apm.Common.{
  ℕ, suc, ◌+◌, ℤ, Bool, true, false, not, starts_with, if◌then◌else◌, Bytes, codes, Option, none,
  some, [], ◌∷◌, ◌≡◌, refl, ap, Bool-cases, inl, inr, ◌∙◌, arith,
}
use php_apm.Globals.Runs.{sprintf_lem, Keeps, Keeps-pure, bound, else_case, then_case}
use php_apm.World.{mysql_query, Log, Env, Var, text, long, other}
use php_apm.Globals.{Item, Globals}
use php_apm.Request.{extracted, string_of, item_string}
use php_apm.Mysql.{
  mysql_get_instance, create_request, create_event, create_stats, Fields, fields, escaped_item,
  request_sql, event_sql, stats_sql, insert_request, ip_int, query_request, request_size,
}

-- The rows inserted into the table `request`.
unfoldable pub request_rows : Log → ℕ
request_rows [] = 0
request_rows (mysql_query q ∷ l) =
    if starts_with (codes "INSERT INTO request") q then suc (request_rows l) else request_rows l
request_rows (_ ∷ l) = request_rows l

abbrev pub count_of : Bool → ℕ
count_of true = 1
count_of false = 0

-- How many rows more than what the flag accounts for.
abbrev pub IsAccounted : Globals → Globals → Type 0
IsAccounted g h =
    request_rows h.log + count_of g.mysql.is_request_created
    ≡ request_rows g.log + count_of h.mysql.is_request_created

pub string_of-Keeps : (v : Option Var) → Keeps (string_of v)
string_of-Keeps none g a h e = cc
string_of-Keeps (some (text t)) g a h e = ground arith
string_of-Keeps (some (long n)) g a h e = cc
string_of-Keeps (some other) g a h e = cc

extracted-mysql :
    (env : Env) (g : Globals)
    → ((extracted env g).mysql ≡ g.mysql) × ((extracted env g).log ≡ g.log)
unfolding extracted
extracted-mysql env g = ground arith

sql_row :
    (f : Fields) (l : Log) → request_rows (mysql_query (request_sql f) ∷ l) ≡ suc (request_rows l)
unfolding request_rows request_sql starts_with
sql_row f l = refl

pub event_row :
    (type lineno : ℕ) (filename msg trace : Bytes) (l : Log)
    → request_rows (mysql_query (event_sql type filename lineno msg trace) ∷ l) ≡ request_rows l
unfolding request_rows event_sql starts_with
event_row type lineno filename msg trace l = refl

pub stats_row :
    (d u s : Bytes) (m : ℤ) (l : Log)
    → request_rows (mysql_query (stats_sql d u s m) ∷ l) ≡ request_rows l
unfolding request_rows stats_sql starts_with
stats_row d u s m l = refl

pub get_instance_rows :
    (env : Env) (g : Globals) (b : Bool) (h : Globals)
    → mysql_get_instance env g ≡ some (b, h)
    → (request_rows h.log ≡ request_rows g.log)
      × (h.mysql.is_request_created ≡ g.mysql.is_request_created)
unfolding mysql_get_instance request_rows starts_with create_request create_event create_stats
get_instance_rows env g b h e = ground arith

pub item-Keeps : (i : Item) → Keeps (item_string i)
item-Keeps i g a h e = ground arith

escaped_item-Keeps : (env : Env) (i : Item) → Keeps (escaped_item env i)
escaped_item-Keeps env i g a h e = ground arith

ip_int-Keeps : (env : Env) (i : Item) → Keeps (ip_int env i)
ip_int-Keeps env i g a h e = ground arith

pub fields-Keeps : (env : Env) → Keeps (fields env)
unfolding fields
fields-Keeps env g f h e =
    let (script, g1, e1, r1) = bound e in
    let (uri, g2, e2, r2) = bound r1 in
    let (host, g3, e3, r3) = bound r2 in
    let (referer, g4, e4, r4) = bound r3 in
    let (method, g5, e5, r5) = bound r4 in
    let (ip, g6, e6, r6) = bound r5 in
    Keeps-pure _ _ _ _ r6
    ∙ ip_int-Keeps env g.request_data.ip g5 ip g6 e6
    ∙ escaped_item-Keeps env g.request_data.method g4 method g5 e5
    ∙ escaped_item-Keeps env g.request_data.referer g3 referer g4 e4
    ∙ escaped_item-Keeps env g.request_data.host g2 host g3 e3
    ∙ escaped_item-Keeps env g.request_data.uri g1 uri g2 e2
    ∙ escaped_item-Keeps env g.request_data.script g script g1 e1

one_row-IsAccounted :
    (g h : Globals)
    → request_rows h.log ≡ suc (request_rows g.log)
    → g.mysql.is_request_created ≡ false
    → h.mysql.is_request_created ≡ true
    → IsAccounted g h
one_row-IsAccounted g h rows before after = rw (rows, before, after) (omega arith)

pub same-IsAccounted :
    (g h : Globals)
    → request_rows h.log ≡ request_rows g.log
    → h.mysql.is_request_created ≡ g.mysql.is_request_created
    → IsAccounted g h
same-IsAccounted g h rows flag = rw (rows, flag) refl

query_request_rows :
    (env : Env) (f : Fields) (g : Globals) (h : Globals)
    → query_request env f g ≡ some (tt, h)
    → (request_rows h.log ≡ suc (request_rows g.log)) × (h.mysql.is_request_created ≡ true)
unfolding query_request request_rows starts_with
query_request_rows env f g h e =
    let (sql, g1, e1, then_emit) = bound e in
    let (text_of, kept) = sprintf_lem (request_size f) (request_sql f) sql g g1 e1 in
    let end = Keeps-pure tt _ tt h then_emit in
    (
      ap (λ k. request_rows k.log) end
          ∙ ap (λ q. request_rows (mysql_query q ∷ g1.log)) text_of
          ∙ sql_row f g1.log
          ∙ ap (λ k. suc (request_rows k.log)) kept,
      ap (λ k. k.mysql.is_request_created) end,
    )

insert_rows :
    (env : Env) (g : Globals) (h : Globals)
    → g.mysql.is_request_created ≡ false
    → insert_request env g ≡ some (tt, h)
    → IsAccounted g h
unfolding insert_request
insert_rows env g h new e =
    let (same, log) = extracted-mysql env g in
    let r = else_case _ _ (extracted env g) e (ap (λ m. m.is_request_created) same ∙ new) in
    let (connection, g1, e1, r1) = bound r in
    let (rows, flag) = get_instance_rows env (extracted env g) connection g1 e1 in
    let rows_of : request_rows g1.log ≡ request_rows g.log = rows ∙ ap request_rows log in
    let flag_of : g1.mysql.is_request_created ≡ g.mysql.is_request_created =
      flag ∙ ap (λ m. m.is_request_created) same in
    elim (Bool-cases (not connection)) [
      | inl fails ↦
          let r2 = then_case _ _ g1 r1 fails in
          let same_end = Keeps-pure tt g1 tt h r2 in
          same-IsAccounted g h (ap (λ k. request_rows k.log) same_end ∙ rows_of)
            (ap (λ k. k.mysql.is_request_created) same_end ∙ flag_of)
      | inr opens ↦
          let r2 = else_case _ _ g1 r1 opens in
          let (f, g2, e2, r3) = bound {r = fields env g1} {f = query_request env} r2 in
          let kept = fields-Keeps env g1 f g2 e2 in
          let (row, created) = query_request_rows env f g2 h r3 in
          one_row-IsAccounted g h (row ∙ ap (λ k. suc (request_rows k.log)) kept ∙ ap suc rows_of)
            new created
    ]

pub insert_request-IsAccounted :
    (env : Env) (g h : Globals) → insert_request env g ≡ some (tt, h) → IsAccounted g h
unfolding insert_request
insert_request-IsAccounted env g h e = elim (Bool-cases g.mysql.is_request_created) [
  | inl old ↦
      let (same, log) = extracted-mysql env g in
      let end = then_case _ _ (extracted env g) e (ap (λ m. m.is_request_created) same ∙ old) in
      let kept = Keeps-pure tt (extracted env g) tt h end in
      same-IsAccounted g h (ap (λ k. request_rows k.log) kept ∙ ap request_rows log)
        (ap (λ k. k.mysql.is_request_created) kept ∙ ap (λ m. m.is_request_created) same)
  | inr new ↦ insert_rows env g h new e
]
