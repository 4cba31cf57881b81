-- ===== src/Exchange/Tests.antt =====
-- Responses that are written to concrete writers.
use imposter_go.Common.{
  String, List, ◌≡◌, refl, true, false, not, ◌&&◌, ◌||◌, none, some, [], ◌∷◌, if◌then◌else◌,
}
use imposter_go.Common.Int.{pos, ltb_ℤ}
use imposter_go.Common.Map.{Map}
use imposter_go.Exchange.{ResponseState, new_response_state, Cleanup}
use imposter_go.Exchange.Write.{Hijack, ResponseWriter, write_to_response_writer}
use imposter_go.Exchange.Laws.{hands_over, three_digits, write_to_response_writer-cleanup}

abbrev writer : ResponseWriter
writer = record { hijack = Hijack.hands_over; headers = []; sent = none; body = []; closed = false }

-- A response whose connection is to be closed, with a place of the rate limiter taken.
abbrev stopped : ResponseState
stopped = record new_response_state {
  stopped = true;
  cleanup_functions = Cleanup.decrement "GET:/" ∷ [];
}

write_to_response_writer-cleanup_example :
    let result = write_to_response_writer stopped writer in
    let closes = not stopped.hijacked && stopped.stopped && hands_over writer.hijack in
    let panics =
      not stopped.hijacked && not stopped.stopped && not (three_digits stopped.status_code) in
    let refused = not stopped.hijacked && stopped.stopped && not (hands_over writer.hijack) in
    let answers =
      not stopped.hijacked
      && not stopped.stopped
      && not (ltb_ℤ stopped.status_code (pos 200))
      && ltb_ℤ stopped.status_code (pos 1000) in
    (result.2 ≡ (if closes || panics then [] else stopped.cleanup_functions))
    × (refused ≡ true → (headers : Map (List String)) × (result.1.sent ≡ some (pos 500, headers)))
    × (answers ≡ true
        → (headers : Map (List String)) × (result.1.sent ≡ some (stopped.status_code, headers)))
write_to_response_writer-cleanup_example = write_to_response_writer-cleanup stopped writer refl
