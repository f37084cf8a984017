-- ===== src/Elasticsearch/Batch.antt =====
-- The batch of driver_elasticsearch.c as a queue in front of curl.
use php_apm.Common.{
  ℕ, suc, ◌+◌, ◌≤◌, ◌<◌, ℤ, pos, true, false, ◌||◌, not, ltb, Bytes, or_else, some, List, [], ◌∷◌,
  ◌++◌, ◌≡◌, refl, sym, ◌∙◌, arith, append_assoc, append-nil, inl, inr, Bool-cases,
}
use php_apm.World.{curl_easy_perform, Log, Env}
use php_apm.Globals.{ElasticsearchState, Globals}
use php_apm.Elasticsearch.{
  bulk_index_header, send_to_elasticsearch, append_to_batch, document, appended, reset, is_empty,
  batch_size_reached, transfer, rshutdown,
}

-- All that curl was given, the first transfer first.
unfoldable pub sent_bodies : Log → Bytes
sent_bodies [] = []
sent_bodies (curl_easy_perform t ∷ l) = sent_bodies l ++ t.body
sent_bodies (_ ∷ l) = sent_bodies l

-- What was given to curl, and what still waits in the buffer behind it.
abbrev pub handed_over : ElasticsearchState × Log → Bytes
handed_over (s, l) = sent_bodies l ++ or_else s.batch_buffer []

handed_over-send :
    (env : Env) (s : ElasticsearchState) (l : Log)
    → handed_over (send_to_elasticsearch env s l) ≡ handed_over (s, l)
unfolding send_to_elasticsearch sent_bodies
handed_over-send env s l = elim (Bool-cases (not s.settings.enabled || is_empty s.batch_buffer)) [
  | inl skip ↦ rw skip refl
  | inr go ↦ elim (Bool-cases (env.curl_easy_init l)) [
    | inl init ↦ rw (go, init) (append-nil _)
    | inr fails ↦ rw (go, fails) refl
  ]
]

handed_over-appended :
    (json : Bytes) (s : ElasticsearchState) (l : Log)
    → handed_over (appended json s, l) ≡ handed_over (s, l) ++ document s.index json
handed_over-appended json s l =
    sym (append_assoc (sent_bodies l) (or_else s.batch_buffer []) (document s.index json))

handed_over-append_to_batch :
    (env : Env) (json : Bytes) (s : ElasticsearchState) (l : Log)
    → handed_over (append_to_batch env json s l) ≡ handed_over (s, l) ++ document s.index json
unfolding append_to_batch
handed_over-append_to_batch env json s l =
    elim (Bool-cases (batch_size_reached s.batch_size (s.batch_count + 1))) [
      | inl full ↦
          rw full (handed_over-send env (appended json s) l ∙ handed_over-appended json s l)
      | inr room ↦ rw room (handed_over-appended json s l)
    ]

index-append_to_batch :
    (env : Env) (json : Bytes) (s : ElasticsearchState) (l : Log)
    → (append_to_batch env json s l).0.index ≡ s.index
unfolding append_to_batch
index-append_to_batch env json s l = ground arith

-- `append_to_batch` for each text in turn.
unfoldable pub append_all : Env → List Bytes → ElasticsearchState × Log → ElasticsearchState × Log
append_all env [] (s, l) = (s, l)
append_all env (json ∷ rest) (s, l) = append_all env rest (append_to_batch env json s l)

-- The documents that the texts make, one behind the other.
unfoldable pub documents : (index : Bytes) → List Bytes → Bytes
documents index [] = []
documents index (json ∷ rest) = document index json ++ documents index rest

-- Whatever batches the texts are sent in, and whether or not curl can be set up for them, what curl
-- was given with what still waits is what was there before and then a document for each text, in
-- order: none is lost, repeated or moved.
pub handed_over-append_all :
    (env : Env) (jsons : List Bytes) (s : ElasticsearchState) (l : Log)
    → handed_over (append_all env jsons (s, l)) ≡ handed_over (s, l) ++ documents s.index jsons
unfolding append_all documents
handed_over-append_all env [] s l = sym (append-nil (handed_over (s, l)))
handed_over-append_all env (json ∷ rest) s l =
    let (t, k) = append_to_batch env json s l in
    handed_over-append_all env rest t k
    ∙ rw (index-append_to_batch env json s l, handed_over-append_to_batch env json s l)
        (append_assoc (handed_over (s, l)) (document s.index json) (documents s.index rest))

-- The counter and the buffer agree on whether anything waits.
pub record IsBatch (s : ElasticsearchState) : Type 0 where
  pub empty : s.batch_count ≡ 0 → or_else s.batch_buffer [] ≡ []
  pub waiting : 0 < s.batch_count → is_empty s.batch_buffer ≡ false

cons_of_header :
    (b : Bytes) (index json : Bytes) → is_empty (some (b ++ document index json)) ≡ false
unfolding document bulk_index_header
cons_of_header [] index json = refl
cons_of_header (c ∷ b) index json = refl

pub appended-IsBatch : (json : Bytes) (s : ElasticsearchState) → IsBatch (appended json s)
appended-IsBatch json s = record {
  empty = λ e. absurd (omega arith);
  waiting = λ h. cons_of_header (or_else s.batch_buffer []) s.index json;
}

send-IsBatch :
    (env : Env) (s : ElasticsearchState) (l : Log)
    → IsBatch s
    → IsBatch (send_to_elasticsearch env s l).0
unfolding send_to_elasticsearch
send-IsBatch env s l h = ground arith

module _ (env : Env) (ready : (l : Log) → env.curl_easy_init l ≡ true) where
  send_of_waiting :
      (s : ElasticsearchState) (l : Log)
      → s.settings.enabled ≡ true
      → is_empty s.batch_buffer ≡ false
      → send_to_elasticsearch env s l
        ≡ (reset s, curl_easy_perform (transfer s (or_else s.batch_buffer [])) ∷ l)
  unfolding send_to_elasticsearch
  send_of_waiting s l on some_wait = rw (on, some_wait, ready l)

  room_left :
      (size : ℤ) (n count : ℕ)
      → size ≡ pos (suc n)
      → batch_size_reached size (count + 1) ≡ false
      → count + 1 ≤ n
  room_left size n count e h = ground arith

  -- Where curl can be set up, an enabled driver with a batch size never holds as many documents as
  -- that size once it has taken one in, and the counter says whether any wait.
  pub append_to_batch_bounded :
      (json : Bytes) (s : ElasticsearchState) (l : Log) (n : ℕ)
      → s.settings.enabled ≡ true
      → s.batch_size ≡ pos (suc n)
      → ((append_to_batch env json s l).0.batch_count ≤ n)
        × IsBatch (append_to_batch env json s l).0
  unfolding append_to_batch
  append_to_batch_bounded json s l n on size =
      let t = appended json s in
      let filled = cons_of_header (or_else s.batch_buffer []) s.index json in
      elim (Bool-cases (batch_size_reached s.batch_size (s.batch_count + 1))) [
        | inl full ↦
            rw (full, send_of_waiting t l on filled)
              (omega arith, record { empty = λ e. refl; waiting = λ h. absurd (omega arith) })
        | inr room ↦
            rw room (room_left s.batch_size n s.batch_count size room, appended-IsBatch json s)
      ]

  -- At the end of the request nothing is left in the batch: curl is given all that waited.
  pub rshutdown_flushes :
      (g : Globals)
      → g.elasticsearch.settings.enabled ≡ true
      → IsBatch g.elasticsearch
      → (sent_bodies (rshutdown env g).log ≡ handed_over (g.elasticsearch, g.log))
        × (or_else (rshutdown env g).elasticsearch.batch_buffer [] ≡ [])
        × ((rshutdown env g).elasticsearch.batch_count ≡ 0)
  unfolding rshutdown transfer sent_bodies
  rshutdown_flushes g on h = elim (Bool-cases (ltb 0 g.elasticsearch.batch_count)) [
    | inl some_wait ↦
        rw (some_wait, send_of_waiting g.elasticsearch g.log on (h.waiting (ground arith)))
          (refl, refl, refl)
    | inr none_wait ↦
        let zero_count : g.elasticsearch.batch_count ≡ 0 = ground arith in
        rw none_wait (
          rw (h.empty zero_count) (sym (append-nil (sent_bodies g.log))),
          h.empty zero_count,
          zero_count,
        )
  ]
