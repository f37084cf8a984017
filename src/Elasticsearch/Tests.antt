-- ===== src/Elasticsearch/Tests.antt =====
-- A batch of two documents.
use php_apm.Common.{
  ◌+◌, ◌≤◌, ◌≡◌, refl, Bytes, codes, some, decimal, decimal_ℤ, List, [], ◌∷◌, ◌++◌, arith,
}
use php_apm.Globals.{EventArgs, Globals}
use php_apm.Fixture.{env, globals}
use php_apm.Elasticsearch.{
  append_to_batch, appended, document, event_document, event_json, level_of, response_code_of,
  bulk_index_header,
}
use php_apm.Elasticsearch.Batch.{
  handed_over, append_all, documents, handed_over-append_all, IsBatch, append_to_batch_bounded,
}
use php_apm.Elasticsearch.Lines.{newlines, document-event_document-lines}

abbrev texts : List Bytes
texts = codes "{}" ∷ codes "[]" ∷ []

-- The batch size of the fixture is two: both documents go out at once.
two_sent : (append_all env texts (globals.elasticsearch, [])).0.batch_count ≡ 0
unfolding append_all append_to_batch bulk_index_header
two_sent = refl

handed_over-append_all_example :
    handed_over (append_all env texts (globals.elasticsearch, []))
    ≡ handed_over (globals.elasticsearch, []) ++ documents (codes "php-apm") texts
handed_over-append_all_example = handed_over-append_all env texts globals.elasticsearch []

append_to_batch_bounded_example :
    ((append_to_batch env (codes "{}") globals.elasticsearch []).0.batch_count ≤ 1)
    × IsBatch (append_to_batch env (codes "{}") globals.elasticsearch []).0
append_to_batch_bounded_example =
    append_to_batch_bounded env (λ l. refl) (codes "{}") globals.elasticsearch [] 1 refl refl

abbrev one_waits : Globals
one_waits = record globals { elasticsearch = appended (codes "{}") globals.elasticsearch }

-- A notice whose trace has two frames, a line each.
abbrev traced : EventArgs
traced = record {
  type = 8;
  error_filename = some (codes "a.php");
  error_lineno = 3;
  msg = some (codes "undefined");
  trace = some (codes "#0 f()" ++ 10 ∷ [] ++ codes "#1 main()" ++ 10 ∷ []);
}

document-event_document-lines_example :
    newlines (document (codes "php-apm") (event_document env traced globals))
    ≡ 2
      + newlines (codes "php-apm")
      + newlines (codes "2015-01-01T00:00:00Z")
      + newlines (codes "undefined")
      + newlines (codes "a.php")
      + newlines (codes "#0 f()" ++ 10 ∷ [] ++ codes "#1 main()" ++ 10 ∷ [])
      + newlines (codes "app")
unfolding event_json response_code_of level_of decimal decimal_ℤ
document-event_document-lines_example =
    document-event_document-lines env traced globals (codes "php-apm") (omega arith) (omega arith)
