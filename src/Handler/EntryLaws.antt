-- ===== src/Handler/EntryLaws.antt =====
-- The order of the plugins, and the answer to a request that none of them handles.
use imposter_go.Common.{
  String, ◌≡◌, refl, sym, ap, ◌∙◌, Bool, true, false, Option, none, some, List, [], ◌∷◌, ◌++◌, ◌==◌,
  if◌then◌else◌, arith,
}
use imposter_go.Common.Int.{ℤ, pos}
use imposter_go.Common.Map.{Map}
use imposter_go.Common.Maybe.{◌>>=◌}
use imposter_go.Config.{CorsConfig}
use imposter_go.Exchange.{Request, header_value}
use imposter_go.Exchange.Context.{Exchange}
use imposter_go.Exchange.Write.{is_informational, ResponseWriter, write_to_response_writer}
use imposter_go.Exchange.Laws.{write_to_response_writer-status}
use imposter_go.Handler.Cors.{add_cors_headers}
use imposter_go.Handler.CorsLaws.{add_cors_headers-sent}
use imposter_go.Handler.StoreApi.{Json}
use imposter_go.Handler.Entry.{
  Plugin, Served, first_cors, handle_not_found, finish, new_exchange, run_plugins, serve,
}
use imposter_go.Store.{Env}
use imposter_go.Store.Handle.{Stores}

abbrev unless_handled : (Exchange → Option Exchange) → Exchange → Option Exchange
unless_handled f e = if e.response_state.handled then some e else f e

handled_or_not :
    (f g h : Exchange → Option Exchange) (e : Exchange) (b : Bool)
    → e.response_state.handled ≡ b
    → ((d : Exchange) → d.response_state.handled ≡ false → f d ≡ (g d >>= unless_handled h))
    → unless_handled f e ≡ (unless_handled g e >>= unless_handled h)
handled_or_not f g h e true handled ih =
    ap (λ b. if b then some e else f e) handled
    ∙ sym (ap (λ b. if b then some e else h e) handled)
    ∙ sym (ap (λ b. (if b then some e else g e) >>= unless_handled h) handled)
handled_or_not f g h e false unhandled ih =
    ap (λ b. if b then some e else f e) unhandled
    ∙ ih e unhandled
    ∙ ap (λ b. (if b then some e else g e) >>= unless_handled h) (sym unhandled)

after_plugin :
    (f g h : Exchange → Option Exchange) (o : Option Exchange)
    → ((d : Exchange) → d.response_state.handled ≡ false → f d ≡ (g d >>= unless_handled h))
    → (o >>= unless_handled f) ≡ ((o >>= unless_handled g) >>= unless_handled h)
after_plugin f g h none ih = refl
after_plugin f g h (some e) ih = handled_or_not f g h e e.response_state.handled refl ih

-- Two lists of plugins run one after the other, the second where the first leaves the request
-- unhandled.
pub run_plugins-append :
    (ps qs : List Plugin) (e : Exchange)
    → e.response_state.handled ≡ false
    → run_plugins (ps ++ qs) e ≡ (
        run_plugins ps e >>= λ e'. if e'.response_state.handled then some e' else run_plugins qs e')
unfolding run_plugins
run_plugins-append [] qs e fresh = rw fresh refl
run_plugins-append (p ∷ ps) qs e fresh =
    after_plugin (run_plugins (ps ++ qs)) (run_plugins ps) (run_plugins qs) (p.handle e)
      (λ e' h. run_plugins-append ps qs e' h)

abbrev sent_of : Served → Option (ℤ × Map (List String))
sent_of served = served.writer.sent

if_false : (b : Bool) (x y : Served) → b ≡ false → (if b then x else y) ≡ y
if_false b x y off = ap (λ c. if c then x else y) off

module _ (itoa : ℤ → String) (json : Json) (env : Env) (status_text : String) where
  origin_sent :
      (cors : Option CorsConfig) (r : Request) (w : ResponseWriter)
      → (if header_value r "Origin" == ""
          then w
          else elim cors [ none ↦ w | some c ↦ add_cors_headers r c w ]).sent
        ≡ w.sent
  origin_sent none r w = ground arith
  origin_sent (some c) r w = ground (arith, add_cors_headers-sent r c w)

  -- A request that no plugin handles is answered with 404, where nothing has been sent yet and the
  -- plugins have neither taken the connection over nor asked for it to be closed.
  pub serve-not_found :
      (plugins : List Plugin) (r : Request) (body : String) (w : ResponseWriter) (stores : Stores)
      (e : Exchange)
      → w.sent ≡ none
      → run_plugins plugins
          (new_exchange itoa json env status_text (record r { body = body }) stores)
        ≡ some e
      → e.response_state.handled ≡ false
      → e.response_state.hijacked ≡ false
      → e.response_state.stopped ≡ false
      → (served : Served) × (headers : Map (List String)) × (serve itoa json env status_text plugins
            r
            (some body)
            w
            stores
          ≡ some served)
        × (served.writer.sent ≡ some (pos 404, headers))
  unfolding serve finish handle_not_found is_informational
  serve-not_found plugins r body w stores e fresh ran handled hijacked stopped =
      let w' =
        if header_value e.request "Origin" == ""
        then w
        else elim (first_cors plugins) [ none ↦ w | some c ↦ add_cors_headers e.request c w ] in
      let (headers, sent) =
        write_to_response_writer-status (handle_not_found e.request plugins e.response_state) w'
          hijacked stopped (origin_sent (first_cors plugins) e.request w ∙ fresh) refl refl in
      let not_found = handle_not_found e.request plugins e.response_state in
      let written =
        λ (b : Bool). write_to_response_writer (if b then e.response_state else not_found) w' in
      let sent' =
        ap sent_of (
          if_false e.response_state.hijacked
            (record { writer = w; stores = e.stores; cleaned_up = [] })
            (record {
              writer = (written e.response_state.handled).1;
              stores = e.stores;
              cleaned_up = (written e.response_state.handled).2;
            })
            hijacked)
        ∙ ap (λ b. (written b).1.sent) handled in
      (
        finish itoa json env status_text plugins w e,
        headers,
        ap (λ o. o >>= λ d. some (finish itoa json env status_text plugins w d)) ran,
        sent' ∙ sent,
      )
