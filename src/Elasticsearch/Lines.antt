-- ===== src/Elasticsearch/Lines.antt =====
-- The lines of driver_elasticsearch.c's documents: the bulk interface takes one document a line, and
-- `snprintf` copies the fields of an event as they are.
use php_apm.Common.{
  ℕ, suc, ◌+◌, ◌≤◌, ℤ, ◌==◌, if◌then◌else◌, Bytes, codes, decimal, All-decimal, decimal_ℤ,
  All-decimal_ℤ, take-all, length, length-append, or_else, Option, [], ◌∷◌, ◌++◌, ◌≡◌, refl, ◌∙◌,
  arith, All, ap,
}
use php_apm.World.{Env}
use php_apm.Globals.{EventArgs, Globals}
use php_apm.Elasticsearch.{
  bulk_index_header, document, level_of, event_json, event_document, response_code_of,
}

-- How many line breaks a text has.
unfoldable pub newlines : Bytes → ℕ
newlines [] = 0
newlines (c ∷ s) = if c == 10 then suc (newlines s) else newlines s

pub newlines-append : (s t : Bytes) → newlines (s ++ t) ≡ newlines s + newlines t
unfolding newlines
newlines-append [] t = omega arith
newlines-append (c ∷ s) t = ground (arith, newlines-append s t)

newlines_of_digits : (s : Bytes) → All (λ c. 45 ≤ c) s → newlines s ≡ 0
unfolding newlines
newlines_of_digits [] h = refl
newlines_of_digits (c ∷ s) h = ground (arith, newlines_of_digits s h.1)

newlines-decimal : (n : ℕ) → newlines (decimal n) ≡ 0
newlines-decimal n = newlines_of_digits (decimal n) (All-decimal n)

newlines-decimal_ℤ : (n : ℤ) → newlines (decimal_ℤ n) ≡ 0
newlines-decimal_ℤ n = newlines_of_digits (decimal_ℤ n) (All-decimal_ℤ n)

newlines-level_of : (type : ℕ) → newlines (level_of type) ≡ 0
unfolding level_of newlines
newlines-level_of type = ground arith

event_json-newlines :
    (timestamp : Bytes) (application : Option Bytes) (code : ℤ) (x : EventArgs)
    → newlines (event_json timestamp application code x)
      ≡ newlines timestamp
        + (newlines (or_else x.msg [])
            + (newlines (or_else x.error_filename [])
                + (newlines (or_else x.trace [])
                    + newlines (or_else application (codes "default")))))
unfolding event_json newlines
event_json-newlines timestamp application code x =
    simp (newlines-append, newlines-decimal, newlines-decimal_ℤ, newlines-level_of) (omega arith)

bulk_index_header-newlines :
    (index : Bytes) → length index ≤ 487 → newlines (bulk_index_header index) ≡ suc (newlines index)
unfolding bulk_index_header newlines
bulk_index_header-newlines index fits =
    let text = codes "{\"index\":{\"_index\":\"" ++ index ++ codes "\"}}" ++ 10 ∷ [] in
    let fit : length text ≤ 511 = omega (
      arith,
      length-append {0} index (codes "\"}}"),
      length-append {0} (index ++ codes "\"}}") (10 ∷ []),
    ) in
    ap newlines (take-all 511 text fit) ∙ simp newlines-append (omega arith)

-- Where nothing is cut, what an event adds to the batch has two line breaks, which the bulk interface
-- wants, and besides them every line break of the index name and of the event's message, file name,
-- trace, time stamp and application: a field with a line break breaks the document's line.
pub document-event_document-lines :
    (env : Env) (x : EventArgs) (g : Globals) (index : Bytes)
    → length index ≤ 487
    → length (
        event_json
          (env.timestamp g.log)
          g.settings.application_id
          (response_code_of x.type (env.http_response_code g.log))
          x)
      ≤ 8191
    → newlines (document index (event_document env x g))
      ≡ 2
        + newlines index
        + newlines (env.timestamp g.log)
        + newlines (or_else x.msg [])
        + newlines (or_else x.error_filename [])
        + newlines (or_else x.trace [])
        + newlines (or_else g.settings.application_id (codes "default"))
unfolding document event_document newlines
document-event_document-lines env x g index fits whole = rw (take-all 8191 _ whole) (
    simp (newlines-append, bulk_index_header-newlines index fits, event_json-newlines)
      (omega arith))
