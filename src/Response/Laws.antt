-- ===== src/Response/Laws.antt =====
-- A body and a status that a script has set win over the configured response.
use imposter_go.Common.{
  String, ◌≡◌, refl, ap, sym, ◌∙◌, true, false, not, ◌&&◌, Option, some, [], ◌∷◌, ◌==◌,
  if◌then◌else◌, get_or, arith, eq_iff,
}
use imposter_go.Common.Int.{pos, ltb_ℤ}
use imposter_go.Common.Map.{Map, insert}
use imposter_go.Common.Maybe.{>>=-eq-some}
use imposter_go.Config.{Response, RequestMatcher}
use imposter_go.Exchange.{Request, ResponseState}
use imposter_go.Exchange.Context.{Exchange}
use imposter_go.External.{External}
use imposter_go.Response.{
  simulate_failure, copy_response_headers, set_content_type_header, delayed, with_defaults,
  script_content_wins, response_file, with_content, fill, after_failure, respond, process_response,
}
use imposter_go.Response.Delays.{delayed-state}

-- The rest of the state that headers leave as it is.
copy_response_headers-body :
    (src : Map String) (rs : ResponseState) → (copy_response_headers src rs).body ≡ rs.body
unfolding copy_response_headers
copy_response_headers-body [] rs = refl
copy_response_headers-body ((k, v) ∷ src) rs =
    let next = record rs { headers = insert k v rs.headers } in
    ground (arith, copy_response_headers-body src rs, copy_response_headers-body src next)

copy_response_headers-status :
    (src : Map String) (rs : ResponseState)
    → (copy_response_headers src rs).status_code ≡ rs.status_code
unfolding copy_response_headers
copy_response_headers-status [] rs = refl
copy_response_headers-status ((k, v) ∷ src) rs =
    let next = record rs { headers = insert k v rs.headers } in
    ground (arith, copy_response_headers-status src rs, copy_response_headers-status src next)

set_content_type_header-rest :
    (mime_type : String → String) (hint default fallback : String) (rs : ResponseState)
    → ((set_content_type_header mime_type hint default fallback rs).status_code ≡ rs.status_code)
      × ((set_content_type_header mime_type hint default fallback rs).body ≡ rs.body)
unfolding set_content_type_header
set_content_type_header-rest mime_type hint default fallback rs = ground arith

module _ (x : External) (template : Exchange → Option RequestMatcher → String → String)
    (file_base_dir : String) where
  copy_response_headers-rest :
      (src : Map String) (rs : ResponseState)
      → ((copy_response_headers src rs).file ≡ rs.file)
        × ((copy_response_headers src rs).fail ≡ rs.fail)
        × ((copy_response_headers src rs).body_set ≡ rs.body_set)
  unfolding copy_response_headers
  copy_response_headers-rest [] rs = (refl, refl, refl)
  copy_response_headers-rest ((k, v) ∷ src) rs =
      let next = record rs { headers = insert k v rs.headers } in
      ground (arith, copy_response_headers-rest src rs, copy_response_headers-rest src next)

  with_defaults-rest :
      (resp : Response) (rs : ResponseState)
      → ((with_defaults resp rs).file ≡ rs.file)
        × ((with_defaults resp rs).fail ≡ rs.fail)
        × ((with_defaults resp rs).body_set ≡ rs.body_set)
        × ((with_defaults resp rs).body ≡ rs.body)
        × ((with_defaults resp rs).status_code ≡ (
            if ltb_ℤ (pos 0) resp.status_code && not rs.status_code_set
            then resp.status_code
            else rs.status_code))
  unfolding with_defaults
  with_defaults-rest resp rs =
      let coded = record rs { status_code = resp.status_code } in
      ground (
        arith,
        copy_response_headers-rest resp.headers rs,
        copy_response_headers-body resp.headers rs,
        copy_response_headers-status resp.headers rs,
        copy_response_headers-rest resp.headers coded,
        copy_response_headers-body resp.headers coded,
        copy_response_headers-status resp.headers coded,
      )

  fill-script :
      (m : Option RequestMatcher) (resp : Response) (r : Request) (e : Exchange)
      → script_content_wins e.response_state ≡ true
      → resp.template ≡ false
      → ((fill x template file_base_dir m resp
            (response_file m resp r e.response_state)
            e).response_state.status_code
          ≡ e.response_state.status_code)
        × ((fill x template file_base_dir m resp
              (response_file m resp r e.response_state)
              e).response_state.body
            ≡ e.response_state.body)
  unfolding response_file fill with_content
  fill-script m resp r e wins raw =
      let (status, body) =
        set_content_type_header-rest x.mime_type_by_extension "" "application/octet-stream"
          "application/json" e.response_state in
      rw (wins, raw) (ground (arith, wins, status, body))

  no_failure :
      (failure : String) (rs : ResponseState)
      → (rs.fail == "") ≡ true
      → (failure == "") ≡ true
      → simulate_failure (if rs.fail == "" then failure else rs.fail) rs ≡ (rs, false)
  unfolding simulate_failure
  no_failure failure rs ok ok' = rw (ok, (eq_iff failure "").0 ok') refl

  respond-script :
      (e : Exchange) (m : Option RequestMatcher) (resp : Response)
      → script_content_wins e.response_state ≡ true
      → (e.response_state.fail == "") ≡ true
      → (resp.fail == "") ≡ true
      → resp.template ≡ false
      → ((respond x template file_base_dir m resp e).response_state.status_code
          ≡ (with_defaults resp e.response_state).status_code)
        × ((respond x template file_base_dir m resp e).response_state.body
            ≡ (with_defaults resp e.response_state).body)
  unfolding respond after_failure
  respond-script e m resp wins ok ok' raw =
      let rs = with_defaults resp e.response_state in
      let (file, fail, body_set, body, status) = with_defaults-rest resp e.response_state in
      let (a, b) =
        fill-script m resp e.request (record e { response_state = rs }) (rw (file, body_set) wins)
          raw in
      rw (no_failure resp.fail rs (rw fail ok) ok') (a, b)

  -- Where a script set the body and no file, neither it nor the configuration asks for a failure, and
  -- the configured response is not a template: a processing that does not panic leaves the script's
  -- body, whatever file, directory or content is configured, and the status code is the script's where
  -- it set one, else the configured one where there is one.
  pub process_response-script :
      (e e' : Exchange) (m : Option RequestMatcher) (resp : Response)
      → script_content_wins e.response_state ≡ true
      → (e.response_state.fail == "") ≡ true
      → (resp.fail == "") ≡ true
      → resp.template ≡ false
      → process_response x template file_base_dir e m resp ≡ some e'
      → (e'.response_state.body ≡ e.response_state.body)
        × (e'.response_state.status_code ≡ (
            if ltb_ℤ (pos 0) resp.status_code && not e.response_state.status_code_set
            then resp.status_code
            else e.response_state.status_code))
  unfolding process_response
  process_response-script e e' m resp wins ok ok' raw done =
      let (d, slept, last) =
        >>=-eq-some (delayed resp e) (λ d. some (respond x template file_base_dir m resp d)) done in
      let same = delayed-state resp e d slept in
      let (a, b) = respond-script d m resp (rw same wins) (rw same ok) ok' raw in
      let (file, fail, body_set, body, status) = with_defaults-rest resp d.response_state in
      let state = ap (λ o. (get_or o e').response_state) (sym last) in
      (
        ap (λ s. s.body) state ∙ b ∙ body ∙ ap (λ s. s.body) same,
        ap (λ s. s.status_code) state
            ∙ a
            ∙ status
            ∙ ap
                (λ s.
                  if ltb_ℤ (pos 0) resp.status_code && not s.status_code_set
                  then resp.status_code
                  else s.status_code)
                same,
      )
