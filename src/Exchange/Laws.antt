-- ===== src/Exchange/Laws.antt =====
-- What explicit settings and the writing of a response establish.
use imposter_go.Common.{
  ◌||◌, is_none, ap, String, ◌≡◌, refl, Bool, true, false, not, ◌&&◌, none, some, List, [], ◌∷◌,
  ◌==◌, arith, if◌then◌else◌,
}
use imposter_go.Common.Int.{ℤ, pos, ltb_ℤ}
use imposter_go.Common.Map.{Map, lookup-insert}
use imposter_go.Common.Text.Case.{canonical_header_key}
use imposter_go.Exchange.Write
use imposter_go.Exchange.{ResponseState, set_header, is_header_explicit}
use imposter_go.Exchange.Write.{
  write_header_panics, is_informational, no_hijacking, Hijack, ResponseWriter, set_headers,
  declare_trailers, add_header, send, write_header, write, write_to_response_writer,
}

-- SetHeader makes exactly the header's own name explicit, whatever the case of its letters.
is_header_explicit-set_header :
    (rs : ResponseState) (name value other : String)
    → is_header_explicit (set_header name value rs) other ≡ (
        if canonical_header_key name == canonical_header_key other
        then true
        else is_header_explicit rs other)
unfolding is_header_explicit set_header
is_header_explicit-set_header rs name value other = ground (
  arith,
  lookup-insert (canonical_header_key name) (canonical_header_key other) true rs.explicit_headers,
)

-- Whether Hijack hands the connection over.
abbrev pub hands_over : Hijack → Bool
hands_over Hijack.hands_over = true
hands_over _ = false

-- Whether a writer that has sent nothing takes a status code.
abbrev pub three_digits : ℤ → Bool
three_digits code = not (ltb_ℤ code (pos 100)) && ltb_ℤ code (pos 1000)

-- A writer that sends, and what it leaves.
opened-sent :
    (rs : ResponseState) (w : ResponseWriter)
    → is_none w.sent ≡ true
    → write_header_panics rs.status_code w ≡ not (three_digits rs.status_code)
unfolding write_header_panics
opened-sent rs w fresh = ground arith

sent-set_headers : (m : Map String) (w : ResponseWriter) → (set_headers m w).sent ≡ w.sent
unfolding set_headers Write.set_header
sent-set_headers [] w = refl
sent-set_headers ((key, value) ∷ rest) w = sent-set_headers rest (Write.set_header key value w)

sent-declare_trailers : (m : Map String) (w : ResponseWriter) → (declare_trailers m w).sent ≡ w.sent
unfolding declare_trailers add_header
sent-declare_trailers [] w = refl
sent-declare_trailers ((key, value) ∷ rest) w =
    sent-declare_trailers rest (add_header "Trailer" key w)

abbrev headed : ResponseState → ResponseWriter → ResponseWriter
headed rs w = set_headers rs.headers (declare_trailers rs.trailers w)

sent-send :
    (rs : ResponseState) (w : ResponseWriter)
    → w.sent ≡ none
    → is_informational rs.status_code ≡ false
    → (send rs w).sent ≡ some (rs.status_code, (headed rs w).headers)
unfolding send write write_header
sent-send rs w fresh final = rw sent-set_headers (
    ground (
      arith,
      final,
      sent-set_headers rs.headers (declare_trailers rs.trailers w),
      sent-declare_trailers rs.trailers w,
    ))

-- The status that a client sees is the one of the state: on a writer that has sent nothing, for a
-- response that is neither hijacked nor stopped, with a final status.
pub write_to_response_writer-status :
    (rs : ResponseState) (w : ResponseWriter)
    → rs.hijacked ≡ false
    → rs.stopped ≡ false
    → w.sent ≡ none
    → three_digits rs.status_code ≡ true
    → is_informational rs.status_code ≡ false
    → (headers : Map (List String)) × ((write_to_response_writer rs w).1.sent
        ≡ some (rs.status_code, headers))
unfolding write_to_response_writer
write_to_response_writer-status rs w h s fresh ok final = (
  (headed rs w).headers,
  ground (arith, opened-sent rs w (ap is_none fresh), ok, sent-send rs w fresh final),
)

-- For a writer that has sent nothing: the cleanup functions that are run are all that were registered,
-- but in two cases where none is run: a stopped response whose connection could be hijacked and closed,
-- and a response that is neither hijacked nor stopped whose status code has not three digits, so that
-- the writing panics. A stopped response whose connection is not handed over is written with 500, and
-- the others with their own status where it is a final one.
pub write_to_response_writer-cleanup :
    (rs : ResponseState) (w : ResponseWriter)
    → w.sent ≡ none
    → let result = write_to_response_writer rs w in
      let closes = not rs.hijacked && rs.stopped && hands_over w.hijack in
      let panics = not rs.hijacked && not rs.stopped && not (three_digits rs.status_code) in
      let refused = not rs.hijacked && rs.stopped && not (hands_over w.hijack) in
      let answers =
        not rs.hijacked
        && not rs.stopped
        && not (ltb_ℤ rs.status_code (pos 200))
        && ltb_ℤ rs.status_code (pos 1000) in
      (result.2 ≡ (if closes || panics then [] else rs.cleanup_functions))
      × (refused ≡ true → (headers : Map (List String)) × (result.1.sent ≡ some (pos 500, headers)))
      × (answers ≡ true
          → (headers : Map (List String)) × (result.1.sent ≡ some (rs.status_code, headers)))
unfolding write_to_response_writer is_informational
write_to_response_writer-cleanup rs w fresh =
    let refused = record rs { status_code = pos 500; body = some no_hijacking } in
    (
      ground (arith, opened-sent rs w (ap is_none fresh)),
      λ h. ((headed refused w).headers, ground (arith, h, sent-send refused w fresh refl)),
      λ h. (
        (headed rs w).headers,
        ground (
          arith,
          h,
          opened-sent rs w (ap is_none fresh),
          sent-send rs w fresh (ground (arith, h)),
        ),
      ),
    )
