-- ===== src/Response/Headers.antt =====
-- A header that a script has set wins over the configured response.
use imposter_go.Common.{
  is_none, ◌&&◌, String, ◌≡◌, refl, ap, sym, ◌∙◌, Bool, true, false, Option, none, some, [], ◌∷◌,
  ◌==◌, if◌then◌else◌, get_or, ◌⊎◌, inl, inr, arith, eq_iff,
}
use imposter_go.Common.Map.{Map, lookup, insert, lookup-insert}
use imposter_go.Common.Maybe.{>>=-eq-some}
use imposter_go.Common.Text.Case.{canonical_header_key}
use imposter_go.Config.{Response, RequestMatcher}
use imposter_go.Exchange.{ResponseState, is_header_explicit}
use imposter_go.Exchange.Context.{Exchange}
use imposter_go.External.{External}
use imposter_go.Path.{ext}
use imposter_go.Response.{
  simulate_failure, copy_response_headers, set_content_type_header, delayed, with_defaults,
  with_body, read, response_file, read_response_file, response_content, with_content, fill,
  after_failure, respond, process_response, content_type_of,
}
use imposter_go.Response.Delays.{delayed-state}

copy_response_headers-explicit :
    (src : Map String) (rs : ResponseState) (key : String)
    → is_header_explicit rs key ≡ true
    → lookup key (copy_response_headers src rs).headers ≡ lookup key rs.headers
unfolding copy_response_headers is_header_explicit
copy_response_headers-explicit [] rs key h = refl
copy_response_headers-explicit ((k, v) ∷ src) rs key h =
    let next = record rs { headers = insert k v rs.headers } in
    ground (
      arith,
      copy_response_headers-explicit src rs key h,
      copy_response_headers-explicit src next key h,
      lookup-insert k key v rs.headers,
      eq_iff k key,
    )

set_content_type_header-kept :
    (mime_type : String → String) (hint default fallback : String) (rs : ResponseState)
    (key : String) (v : Option String)
    → (is_none v && key == "Content-Type") ≡ false
    → lookup key rs.headers ≡ v
    → lookup key (set_content_type_header mime_type hint default fallback rs).headers ≡ v
unfolding set_content_type_header
set_content_type_header-kept mime_type hint default fallback rs key v other h =
    let content_type =
      if hint == "" then fallback else content_type_of mime_type (ext hint) default in
    ground (
      arith,
      other,
      lookup-insert "Content-Type" key content_type rs.headers,
      eq_iff "Content-Type" key,
      eq_iff key "Content-Type",
    )

module _ (x : External) (template : Exchange → Option RequestMatcher → String → String)
    (file_base_dir : String) where
  -- A header that is there stays as it is.
  with_body-kept :
      (m : Option RequestMatcher) (resp : Response) (file : String) (e : Exchange)
      (content key : String) (v : Option String)
      → (is_none v && key == "Content-Type") ≡ false
      → lookup key e.response_state.headers ≡ v
      → lookup key (with_body x template file_base_dir m resp file e content).response_state.headers
        ≡ v
  unfolding with_body
  with_body-kept m resp file e content key v other h =
      set_content_type_header-kept x.mime_type_by_extension file "application/octet-stream"
        "application/json"
        (record e.response_state {
          body = some (if resp.template then template e m content else content);
        })
        key v other h

  -- The headers of what a file gives.
  abbrev headers_or : ResponseState → String ⊎ ResponseState → Map String
  headers_or rs (inl content) = rs.headers
  headers_or rs (inr failed) = failed.headers

  response_content-headers :
      (resp : Response) (file : String) (rs : ResponseState)
      → headers_or rs (response_content x template file_base_dir resp file rs) ≡ rs.headers
  unfolding response_content read_response_file
  response_content-headers resp file rs = ground arith

  read-kept :
      (m : Option RequestMatcher) (resp : Response) (file : String) (e : Exchange)
      (c : String ⊎ ResponseState) (key : String) (v : Option String)
      → (is_none v && key == "Content-Type") ≡ false
      → lookup key e.response_state.headers ≡ v
      → headers_or e.response_state c ≡ e.response_state.headers
      → lookup key (read x template file_base_dir m resp file e c).response_state.headers ≡ v
  unfolding read
  read-kept m resp file e (inl content) key v other h same =
      with_body-kept m resp file e content key v other h
  read-kept m resp file e (inr failed) key v other h same = ap (lookup key) same ∙ h

  with_content-kept :
      (m : Option RequestMatcher) (resp : Response) (file : String) (e : Exchange) (key : String)
      (v : Option String)
      → (is_none v && key == "Content-Type") ≡ false
      → lookup key e.response_state.headers ≡ v
      → lookup key (with_content x template file_base_dir m resp file e).response_state.headers ≡ v
  unfolding with_content
  with_content-kept m resp file e key v other h = ground (
    arith,
    read-kept m resp file e (response_content x template file_base_dir resp file e.response_state)
        key v other h (response_content-headers resp file e.response_state),
    with_body-kept m resp file e (get_or e.response_state.body "") key v other h,
    set_content_type_header-kept x.mime_type_by_extension file "application/octet-stream"
        "application/json" e.response_state key v other h,
  )

  fill-kept :
      (m : Option RequestMatcher) (resp : Response) (file : Option String) (e : Exchange)
      (key : String) (v : Option String)
      → (is_none v && key == "Content-Type") ≡ false
      → lookup key e.response_state.headers ≡ v
      → lookup key (fill x template file_base_dir m resp file e).response_state.headers ≡ v
  unfolding fill
  fill-kept m resp none e key v other h = h
  fill-kept m resp (some file) e key v other h = with_content-kept m resp file e key v other h

  after_failure-kept :
      (m : Option RequestMatcher) (resp : Response) (e : Exchange) (r : ResponseState × Bool)
      (key : String) (v : Option String)
      → (is_none v && key == "Content-Type") ≡ false
      → lookup key r.0.headers ≡ v
      → lookup key (after_failure x template file_base_dir m resp e r).response_state.headers ≡ v
  unfolding after_failure
  after_failure-kept m resp e (rs, true) key v other h = h
  after_failure-kept m resp e (rs, false) key v other h =
      fill-kept m resp (response_file m resp e.request rs) (record e { response_state = rs }) key v
        other h

  simulate_failure-headers :
      (failure : String) (rs : ResponseState) → (simulate_failure failure rs).0.headers ≡ rs.headers
  unfolding simulate_failure
  simulate_failure-headers failure rs = ground arith

  with_defaults-kept :
      (resp : Response) (rs : ResponseState) (key : String)
      → is_header_explicit rs key ≡ true
      → lookup key (with_defaults resp rs).headers ≡ lookup key rs.headers
  unfolding with_defaults is_header_explicit
  with_defaults-kept resp rs key h = ground (
    arith,
    copy_response_headers-explicit resp.headers rs key h,
    copy_response_headers-explicit resp.headers (record rs { status_code = resp.status_code }) key
        h,
  )

  respond-kept :
      (m : Option RequestMatcher) (resp : Response) (e : Exchange) (key : String)
      (v : Option String)
      → (is_none v && key == "Content-Type") ≡ false
      → is_header_explicit e.response_state key ≡ true
      → lookup key e.response_state.headers ≡ v
      → lookup key (respond x template file_base_dir m resp e).response_state.headers ≡ v
  unfolding respond
  respond-kept m resp e key v other explicit h =
      let rs = with_defaults resp e.response_state in
      let failure = if rs.fail == "" then resp.fail else rs.fail in
      after_failure-kept m resp e (simulate_failure failure rs) key v other (
        ap (lookup key) (simulate_failure-headers failure rs)
        ∙ with_defaults-kept resp e.response_state key explicit
        ∙ h)

  -- Where a script has set a header, the processing of a configured response that does not panic leaves
  -- every spelling of its name as it is: under each, the value, or its absence, is what it was. The one
  -- exception is Content-Type in this spelling where it is absent, which may be added.
  pub process_response-explicit :
      (e e' : Exchange) (m : Option RequestMatcher) (resp : Response) (key name : String)
      → is_header_explicit e.response_state key ≡ true
      → canonical_header_key name ≡ canonical_header_key key
      → (is_none (lookup name e.response_state.headers) && name == "Content-Type") ≡ false
      → process_response x template file_base_dir e m resp ≡ some e'
      → lookup name e'.response_state.headers ≡ lookup name e.response_state.headers
  unfolding process_response is_header_explicit
  process_response-explicit e e' m resp key name explicit same other done =
      let v = lookup name e.response_state.headers in
      let (d, slept, last) =
        >>=-eq-some (delayed resp e) (λ d. some (respond x template file_base_dir m resp d)) done in
      let named : is_header_explicit e.response_state name ≡ true =
        ap (λ k. get_or (lookup k e.response_state.explicit_headers) false) same ∙ explicit in
      ap (λ o. lookup name (get_or o e').response_state.headers) (sym last)
      ∙ respond-kept m resp d name v other
          (ap (λ rs. is_header_explicit rs name) (delayed-state resp e d slept) ∙ named)
          (ap (λ rs. lookup name rs.headers) (delayed-state resp e d slept))
