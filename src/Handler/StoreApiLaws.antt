-- ===== src/Handler/StoreApiLaws.antt =====
-- The store API: what is written is read, and where it panics.
use imposter_go.Common.{
  ℕ, ◌+◌, String, ◌≡◌, refl, sym, ap, ◌∙◌, Bool, true, false, ◌||◌, Option, none, some, List, [],
  ◌∷◌, ◌==◌, if◌then◌else◌, is_some, is_none, arith, ltb,
}
use imposter_go.Common.Int.{pos, ◌<ℤ◌, pos_part}
use imposter_go.Common.Map.{Map}
use imposter_go.Common.Text.{join}
use imposter_go.Common.Value.{Value, string}
use imposter_go.Exchange.{Request}
use imposter_go.Exchange.Write.{ResponseWriter, set_header, write_header, write}
use imposter_go.Matcher.Score.{segments}
use imposter_go.Store.{Env, get_inmemory_ttl}
use imposter_go.Store.Expiry.{store_value-expiry}
use imposter_go.Store.Handle.{Store, Stores, shared, open_store, get, put}
use imposter_go.Handler.StoreApi.{
  Json, handle_store_request, route, handle_get_store, handle_put_store, handle_post_store,
  post_items, handle_delete_store, get_item, write_value,
}

not_yet : (now ttl : ℕ) → ltb (now + ttl) now ≡ false
not_yet now ttl = ground arith

dispatched :
    {A : Type 0} (get put post delete items : Bool) (a b c d : Option A) (e : A)
    → is_none a ≡ true
    → is_none b ≡ true
    → is_none c ≡ items
    → is_none d ≡ true
    → is_none
        (if get then a else if put then b else if post then c else if delete then d else some e)
      ≡ (get || put || (if post then items else delete))
dispatched true put post delete items a b c d e ha hb hc hd = ha
dispatched false true post delete items a b c d e ha hb hc hd = hb
dispatched false false true delete items a b c d e ha hb hc hd = hc
dispatched false false false true items a b c d e ha hb hc hd = hd
dispatched false false false false items a b c d e ha hb hc hd = refl

module _ (json : Json) (env : Env) where
  -- Whether a body decodes to an object with items.
  abbrev pub has_items : Option (Map Value) → Bool
  has_items none = false
  has_items (some []) = false
  has_items (some (item ∷ items)) = true

  post_items-request :
      (items : Option (Map Value)) (w : ResponseWriter) (stores : Stores)
      → is_none (post_items json env items "request" w stores) ≡ has_items items
  unfolding post_items open_store
  post_items-request none w stores = refl
  post_items-request (some []) w stores = refl
  post_items-request (some (item ∷ items)) w stores = refl

  get-request :
      (r : Request) (key : String) (w : ResponseWriter) (stores : Stores)
      → (key == "") ≡ false
      → is_none (handle_get_store json env r "request" key w stores) ≡ true
  unfolding handle_get_store get_item open_store
  get-request r key w stores named = rw named refl

  put-request :
      (text key : String) (w : ResponseWriter) (stores : Stores)
      → (key == "") ≡ false
      → is_none (handle_put_store json env (some text) "request" key w stores) ≡ true
  unfolding handle_put_store open_store
  put-request text key w stores named = rw named refl

  delete-request :
      (key : String) (w : ResponseWriter) (stores : Stores)
      → (key == "") ≡ false
      → is_none (handle_delete_store json env "request" key w stores) ≡ true
  unfolding handle_delete_store open_store
  delete-request key w stores named = rw named refl

  -- A request for a key of the store named "request" panics exactly where its method needs a handle:
  -- to read, write or delete the key, or to post at least one item.
  pub handle_store_request-request :
      (r : Request) (text system store : String) (rest : List String) (w : ResponseWriter)
      (stores : Stores)
      → segments r.path ≡ system ∷ store ∷ "request" ∷ rest
      → (join rest "/" == "") ≡ false
      → is_none (handle_store_request json env r (some text) w stores) ≡ (
          r.method == "GET"
          || r.method == "PUT"
          || (if r.method == "POST"
              then has_items (json.decode_map text)
              else r.method == "DELETE"))
  unfolding handle_store_request route handle_post_store
  handle_store_request-request r text system store rest w stores path named = rw path (
      dispatched (r.method == "GET") (r.method == "PUT") (r.method == "POST") (r.method == "DELETE")
        (has_items (json.decode_map text)) _ _ _ _ _ (get-request r (join rest "/") w stores named)
        (put-request text (join rest "/") w stores named)
        (post_items-request (json.decode_map text) w stores)
        (delete-request (join rest "/") w stores named))

  abbrev handle : String → Store
  handle name = record { name = name; provider = shared }

  put_found :
      (text name key : String) (w : ResponseWriter) (stores : Stores)
      → (name == "request") ≡ false
      → (key == "") ≡ false
      → handle_put_store json env (some text) name key w stores
        ≡ some (
          write_header
              (if is_some (get env (handle name) key stores).0 then pos 200 else pos 201)
              w,
          put env (handle name) key (string text) (get env (handle name) key stores).1,
        )
  unfolding handle_put_store open_store
  put_found text name key w stores other named = rw (named, other) refl

  get_found :
      (r : Request) (name key : String) (w : ResponseWriter) (stores : Stores)
      → (name == "request") ≡ false
      → (key == "") ≡ false
      → handle_get_store json env r name key w stores
        ≡ some (
          write_value json env (get env (handle name) key stores).0 w,
          (get env (handle name) key stores).1,
        )
  unfolding handle_get_store open_store get_item
  get_found r name key w stores other named = rw (named, other) refl

  visible :
      (name key text : String) (stores : Stores)
      → pos 0 <ℤ get_inmemory_ttl env
      → (get env (handle name) key (put env (handle name) key (string text) stores)).0
        ≡ some (string text)
  unfolding get put
  visible name key text stores ttl =
      let p = stores.shared_provider in
      store_value-expiry env env.now name key (string text) p ttl
      ∙ ap (λ b. if b then none else some (string text))
          (not_yet env.now (pos_part (get_inmemory_ttl env)))

  routed :
      (r : Request) (body : Option String) (system store name : String) (rest : List String)
      (w : ResponseWriter) (stores : Stores)
      → segments r.path ≡ system ∷ store ∷ name ∷ rest
      → handle_store_request json env r body w stores
        ≡ route json env r body (system ∷ store ∷ name ∷ rest) w stores
  unfolding handle_store_request
  routed r body system store name rest w stores path = rw path refl

  routed_put :
      (r : Request) (body : Option String) (system store name : String) (rest : List String)
      (w : ResponseWriter) (stores : Stores)
      → r.method ≡ "PUT"
      → route json env r body (system ∷ store ∷ name ∷ rest) w stores
        ≡ handle_put_store json env body name (join rest "/") w stores
  unfolding route
  routed_put r body system store name rest w stores method = rw method refl

  routed_get :
      (r : Request) (body : Option String) (system store name : String) (rest : List String)
      (w : ResponseWriter) (stores : Stores)
      → r.method ≡ "GET"
      → route json env r body (system ∷ store ∷ name ∷ rest) w stores
        ≡ handle_get_store json env r name (join rest "/") w stores
  unfolding route
  routed_get r body system store name rest w stores method = rw method refl

  stored :
      (a b : ResponseWriter) (c d : Stores)
      → Path (Option (ResponseWriter × Stores)) (some (a, c)) (some (b, d))
      → c ≡ d
  stored a b c d e = cc

  -- Where a TTL is configured, a text that is put under a key of a store, other than the one named
  -- "request", is what a read of the key at the same time returns.
  pub handle_store_request-put :
      (r r' : Request) (text system store name : String) (rest : List String) (body : Option String)
      (w w' : ResponseWriter) (stores stores' : Stores) (v : ResponseWriter)
      → r.method ≡ "PUT"
      → r'.method ≡ "GET"
      → segments r.path ≡ system ∷ store ∷ name ∷ rest
      → segments r'.path ≡ system ∷ store ∷ name ∷ rest
      → (name == "request") ≡ false
      → (join rest "/" == "") ≡ false
      → pos 0 <ℤ get_inmemory_ttl env
      → handle_store_request json env r (some text) w stores ≡ some (v, stores')
      → (after : Stores) × (handle_store_request json env r' body w' stores'
          ≡ some (write text (set_header "Content-Type" "text/plain" w'), after))
  unfolding write_value
  handle_store_request-put r r' text system store name rest body w w' stores stores' v put_it get_it
        path path' other named ttl done =
      let key = join rest "/" in
      let before = (get env (handle name) key stores).1 in
      let written = put env (handle name) key (string text) before in
      let same = stored _ _ _ _ (
        sym (
          routed r (some text) system store name rest w stores path
          ∙ routed_put r (some text) system store name rest w stores put_it
          ∙ put_found text name key w stores other named)
        ∙ done) in
      (
        (get env (handle name) key stores').1,
        routed r' body system store name rest w' stores' path'
            ∙ routed_get r' body system store name rest w' stores' get_it
            ∙ get_found r' name key w' stores' other named
            ∙ ap (λ o. some (write_value json env o w', (get env (handle name) key stores').1))
                (ap (λ t. (get env (handle name) key t).0) (sym same)
                  ∙ visible name key text before ttl),
      )
