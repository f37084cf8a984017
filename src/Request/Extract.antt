-- ===== src/Request/Extract.antt =====
-- The request data over `extract_data` of apm.c.
use php_apm.Common.{
  ◌&&◌, not, Bool, true, false, ◌≡◌, refl, inl, inr, Bytes, List, arith, Bool-cases, codes,
}
use php_apm.World.{Var, Env}
use php_apm.Globals.{Settings, Item, RequestData, Globals}
use php_apm.Request.{
  is_string, is_long, has_type, register_info, register_server, register_cookies, register_post,
  extract, extracted, empty_request_data,
}

-- A flag is set only where the variable has the type that its readers rely on.
abbrev pub Holds : (Var → Bool) → Item → Type 0
Holds is_type i = i.found ≡ true → has_type is_type i.var ≡ true

pub record IsTyped (rd : RequestData) : Type 0 where
  pub uri : Holds is_string rd.uri
  pub host : Holds is_string rd.host
  pub ip : Holds is_string rd.ip
  pub referer : Holds is_string rd.referer
  pub ts : Holds is_long rd.ts
  pub script : Holds is_string rd.script
  pub method : Holds is_string rd.method

-- Nothing has been read yet.
pub record IsUnread (rd : RequestData) : Type 0 where
  pub uri : rd.uri.found ≡ false
  pub host : rd.host.found ≡ false
  pub ip : rd.ip.found ≡ false
  pub referer : rd.referer.found ≡ false
  pub ts : rd.ts.found ≡ false
  pub script : rd.script.found ≡ false
  pub method : rd.method.found ≡ false
  pub cookies : rd.cookies_found ≡ false
  pub post_vars : rd.post_vars_found ≡ false

pub empty_request_data-IsUnread : IsUnread empty_request_data
empty_request_data-IsUnread = ground arith

register_info-Holds :
    (tmp : List (Bytes × Var)) (name : Bytes) (is_type : Var → Bool) (i : Item)
    → i.found ≡ false
    → Holds is_type (register_info tmp name is_type i)
unfolding register_info
register_info-Holds tmp name is_type i unread = ground arith

-- What holds of the request data at any time in a request.
pub record IsSound (rd : RequestData) : Type 0 where
  pub typed : IsTyped rd
  pub unread : rd.initialized ≡ false → IsUnread rd

register_server-IsTyped :
    (store_ip : Bool) (tmp : List (Bytes × Var)) (rd : RequestData)
    → IsUnread rd
    → IsTyped (register_server store_ip tmp rd)
unfolding register_server
register_server-IsTyped store_ip tmp rd h = record {
  uri = register_info-Holds tmp _ is_string rd.uri h.uri;
  host = register_info-Holds tmp _ is_string rd.host h.host;
  ip = register_ip;
  referer = register_info-Holds tmp _ is_string rd.referer h.referer;
  ts = register_info-Holds tmp _ is_long rd.ts h.ts;
  script = register_info-Holds tmp _ is_string rd.script h.script;
  method = register_info-Holds tmp _ is_string rd.method h.method;
}
  where
    register_ip : Holds is_string (register_server store_ip tmp rd).ip
    register_ip = elim (Bool-cases store_ip) [
      | inl on ↦ rw on (register_info-Holds tmp (codes "REMOTE_ADDR") is_string rd.ip h.ip)
      | inr off ↦ rw off (ground arith)
    ]

module _ (env : Env) where
  extract-IsTyped : (g : Globals) → IsUnread g.request_data → IsTyped (extract env g)
  unfolding extract
  extract-IsTyped g h = ground (
    arith,
    λ (tmp : List (Bytes × Var)).
        register_server-IsTyped g.settings.store_ip tmp
          (record g.request_data { initialized = true }) h',
  )
    where
      h' : IsUnread (record g.request_data { initialized = true })
      h' = ground arith

  extract-initialized : (g : Globals) → (extract env g).initialized ≡ true
  unfolding extract register_server register_cookies register_post
  extract-initialized g = ground arith

  -- Between the start of a request and its end, `extract_data` keeps the request data sound, and
  -- leaves it read: whatever the script's variables hold, a set flag means a value of the type that
  -- the drivers read.
  pub extracted-IsSound :
      (g : Globals)
      → IsSound g.request_data
      → IsSound (extracted env g).request_data × ((extracted env g).request_data.initialized ≡ true)
  unfolding extracted
  extracted-IsSound g h = elim (Bool-cases g.request_data.initialized) [
    | inl read ↦ simp read (h, refl)
    | inr new ↦
        let done : (extract env g).initialized ≡ true = extract-initialized g in
        simp new
          (record { typed = extract-IsTyped g (h.unread new); unread = λ e. cc (done, e) }, done)
  ]

  -- The request data is read once: another call changes nothing, whatever the variables hold by then.
  pub extracted_idem : (g : Globals) → extracted env (extracted env g) ≡ extracted env g
  unfolding extracted
  extracted_idem g = ground arith

  -- The first reading of a request's data, and any later one: what the settings say not to store at the
  -- first is not marked as found then, and whatever the settings are at a later one, it changes nothing.
  pub extracted_private :
      (g : Globals)
      → g.request_data ≡ empty_request_data
      → ((extracted env g).request_data.ip.found && not g.settings.store_ip ≡ false)
        × ((extracted env g).request_data.cookies_found && not g.settings.store_cookies ≡ false)
        × ((extracted env g).request_data.post_vars_found && not g.settings.store_post ≡ false)
        × ((s : Settings)
            → (extracted env (record (extracted env g) { settings = s })).request_data
              ≡ (extracted env g).request_data)
  unfolding extracted
  extracted_private g h = (ground arith, ground arith, ground arith, λ s. ground arith)

pub extracted-keeps :
    (env : Env) (g : Globals)
    → extracted env g ≡ record g { request_data = (extracted env g).request_data }
unfolding extracted
extracted-keeps env g = elim (Bool-cases g.request_data.initialized) [
  | inl read ↦ simp read refl
  | inr new ↦ simp new refl
]
