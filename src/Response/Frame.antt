-- ===== src/Response/Frame.antt =====
-- What the processing of a response leaves as it is.
use imposter_go.Common.{
  String, ◌≡◌, refl, ap, sym, ◌∙◌, Bool, true, false, Option, none, some, List, [], ◌∷◌, arith,
  ◌==◌, if◌then◌else◌, get_or, ◌⊎◌, inl, inr,
}
use imposter_go.Common.Map.{Map, insert}
use imposter_go.Common.Maybe.{>>=-eq-some}
use imposter_go.Config.{Response, RequestMatcher}
use imposter_go.Exchange.{ResponseState, Cleanup}
use imposter_go.Exchange.Context.{Exchange}
use imposter_go.External.{External}
use imposter_go.Response.{
  simulate_delay, simulate_failure, copy_response_headers, set_content_type_header, delayed,
  with_defaults, with_body, read, response_file, read_response_file, response_content, with_content,
  fill, after_failure, respond, process_response,
}

copy_response_headers-cleanup :
    (src : Map String) (rs : ResponseState)
    → (copy_response_headers src rs).cleanup_functions ≡ rs.cleanup_functions
unfolding copy_response_headers
copy_response_headers-cleanup [] rs = refl
copy_response_headers-cleanup ((k, v) ∷ src) rs =
    let next = record rs { headers = insert k v rs.headers } in
    ground (arith, copy_response_headers-cleanup src rs, copy_response_headers-cleanup src next)

set_content_type_header-cleanup :
    (mime_type : String → String) (hint default fallback : String) (rs : ResponseState)
    → (set_content_type_header mime_type hint default fallback rs).cleanup_functions
      ≡ rs.cleanup_functions
unfolding set_content_type_header
set_content_type_header-cleanup mime_type hint default fallback rs = ground arith

-- The same cleanup functions, stores and frames.
abbrev pub IsFramed : Exchange → Exchange → Type 0
IsFramed e e' =
    (e'.response_state.cleanup_functions ≡ e.response_state.cleanup_functions)
    × (e'.stores ≡ e.stores)
    × (e'.frames ≡ e.frames)

module _ (x : External) (template : Exchange → Option RequestMatcher → String → String)
    (file_base_dir : String) where
  with_body-IsFramed :
      (m : Option RequestMatcher) (resp : Response) (file : String) (e : Exchange)
      (content : String)
      → IsFramed e (with_body x template file_base_dir m resp file e content)
  unfolding with_body
  with_body-IsFramed m resp file e content = (
    set_content_type_header-cleanup x.mime_type_by_extension file "application/octet-stream"
        "application/json"
        (record e.response_state {
          body = some (if resp.template then template e m content else content);
        }),
    refl,
    refl,
  )

  abbrev cleanup_or : ResponseState → String ⊎ ResponseState → List Cleanup
  cleanup_or rs (inl content) = rs.cleanup_functions
  cleanup_or rs (inr failed) = failed.cleanup_functions

  response_content-cleanup :
      (resp : Response) (file : String) (rs : ResponseState)
      → cleanup_or rs (response_content x template file_base_dir resp file rs)
        ≡ rs.cleanup_functions
  unfolding response_content read_response_file
  response_content-cleanup resp file rs = ground arith

  read-IsFramed :
      (m : Option RequestMatcher) (resp : Response) (file : String) (e : Exchange)
      (c : String ⊎ ResponseState)
      → cleanup_or e.response_state c ≡ e.response_state.cleanup_functions
      → IsFramed e (read x template file_base_dir m resp file e c)
  unfolding read
  read-IsFramed m resp file e (inl content) same = with_body-IsFramed m resp file e content
  read-IsFramed m resp file e (inr failed) same = (same, refl, refl)

  with_content-IsFramed :
      (m : Option RequestMatcher) (resp : Response) (file : String) (e : Exchange)
      → IsFramed e (with_content x template file_base_dir m resp file e)
  unfolding with_content
  with_content-IsFramed m resp file e = ground (
    arith,
    read-IsFramed m resp file e
        (response_content x template file_base_dir resp file e.response_state)
        (response_content-cleanup resp file e.response_state),
    with_body-IsFramed m resp file e (get_or e.response_state.body ""),
    set_content_type_header-cleanup x.mime_type_by_extension file "application/octet-stream"
        "application/json" e.response_state,
  )

  fill-IsFramed :
      (m : Option RequestMatcher) (resp : Response) (file : Option String) (e : Exchange)
      → IsFramed e (fill x template file_base_dir m resp file e)
  unfolding fill
  fill-IsFramed m resp none e = (refl, refl, refl)
  fill-IsFramed m resp (some file) e = with_content-IsFramed m resp file e

  after_failure-IsFramed :
      (m : Option RequestMatcher) (resp : Response) (e : Exchange) (r : ResponseState × Bool)
      → r.0.cleanup_functions ≡ e.response_state.cleanup_functions
      → IsFramed e (after_failure x template file_base_dir m resp e r)
  unfolding after_failure
  after_failure-IsFramed m resp e (rs, true) h = (h, refl, refl)
  after_failure-IsFramed m resp e (rs, false) h =
      let (c, s, f) =
        fill-IsFramed m resp (response_file m resp e.request rs)
          (record e { response_state = rs }) in
      (c ∙ h, s, f)

  simulate_failure-cleanup :
      (failure : String) (rs : ResponseState)
      → (simulate_failure failure rs).0.cleanup_functions ≡ rs.cleanup_functions
  unfolding simulate_failure
  simulate_failure-cleanup failure rs = ground arith

  with_defaults-cleanup :
      (resp : Response) (rs : ResponseState)
      → (with_defaults resp rs).cleanup_functions ≡ rs.cleanup_functions
  unfolding with_defaults
  with_defaults-cleanup resp rs = ground (
    arith,
    copy_response_headers-cleanup resp.headers rs,
    copy_response_headers-cleanup resp.headers (record rs { status_code = resp.status_code }),
  )

  delayed-IsFramed : (resp : Response) (e e' : Exchange) → delayed resp e ≡ some e' → IsFramed e e'
  unfolding delayed simulate_delay
  delayed-IsFramed resp e e' h = ground arith

  respond-IsFramed :
      (m : Option RequestMatcher) (resp : Response) (e : Exchange)
      → IsFramed e (respond x template file_base_dir m resp e)
  unfolding respond
  respond-IsFramed m resp e =
      let rs = with_defaults resp e.response_state in
      let failure = if rs.fail == "" then resp.fail else rs.fail in
      after_failure-IsFramed m resp e (simulate_failure failure rs)
        (simulate_failure-cleanup failure rs ∙ with_defaults-cleanup resp e.response_state)

  -- The processing of a response leaves the registered cleanup functions, the stores and the frames
  -- as they are,
  -- whatever branch it takes.
  pub process_response-IsFramed :
      (e e' : Exchange) (m : Option RequestMatcher) (resp : Response)
      → process_response x template file_base_dir e m resp ≡ some e'
      → IsFramed e e'
  unfolding process_response
  process_response-IsFramed e e' m resp done =
      let (d, slept, last) =
        >>=-eq-some (delayed resp e) (λ d. some (respond x template file_base_dir m resp d)) done in
      let (c, s, f) = delayed-IsFramed resp e d slept in
      let (c', s', f') = respond-IsFramed m resp d in
      (
        ap (λ o. (get_or o e').response_state.cleanup_functions) (sym last) ∙ c' ∙ c,
        ap (λ o. (get_or o e').stores) (sym last) ∙ s' ∙ s,
        ap (λ o. (get_or o e').frames) (sym last) ∙ f' ∙ f,
      )
