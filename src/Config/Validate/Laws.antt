-- ===== src/Config/Validate/Laws.antt =====
-- Which configurations pass.
use imposter_go.Common.{
  ℕ, ◌+◌, String, ◌≡◌, ◌≢◌, ◌⊎◌, refl, sym, ap, ◌∙◌, Bool, true, false, not, ◌&&◌, Option, none,
  some, List, [], ◌∷◌, ◌==◌, if◌then◌else◌, is_some, is_none, arith, eq_iff, inl, inr, Bool-cases,
  Option-cases,
}
use imposter_go.Common.Int.{ℤ, pos, ◌<ℤ◌, ◌≤ℤ◌}
use imposter_go.Common.Lists.{is_empty, All}
use imposter_go.Common.Map.{Map, lookup}
use imposter_go.Config.{
  Config, Resource, Interceptor, Schedule, Upstream, RequestMatcher, normalised_on,
}
use imposter_go.Config.Validate.{
  Parsers, Invalid, ScheduleDesc, unknown_upstream, reject, and_then, schedule_desc, check_duration,
  validate_schedule_trigger, validate_connection_schedules, validate_other_plugin,
  validate_websocket, validate_web_socket_fields, validate_upstreams, validate_resources,
  validate_interceptors, validate_schedules, validate,
}

-- An interval that is positive, or a cron expression, and not both; a limit that is not negative.
abbrev pub HasTrigger : Parsers → Schedule → Type 0
HasTrigger p s =
    (((s.cron ≡ "")
        × ((d : ℤ) × (p.parse_duration s.every ≡ some d) × (pos 0 <ℤ d))
        × ((s.every == "") ≡ false))
      ⊎ ((s.every ≡ "") × (p.cron_parses s.cron ≡ true) × ((s.cron == "") ≡ false)))
    × (pos 0 ≤ℤ s.limit)

validate_schedule_trigger-HasTrigger :
    (p : Parsers) (s : Schedule) (desc : ScheduleDesc)
    → validate_schedule_trigger p s desc ≡ none
    → HasTrigger p s
unfolding validate_schedule_trigger check_duration
validate_schedule_trigger-HasTrigger p s desc e = (
  elim (Bool-cases (s.every == "")) [
    | inl absent ↦ inr (ground (arith, eq_iff s.every ""), ground arith, ground arith)
    | inr given ↦ elim (Option-cases (p.parse_duration s.every)) [
      | inl wrong ↦ absurd (ground arith)
      | inr (d, parsed) ↦ inl (ground (arith, eq_iff s.cron ""), (d, parsed, ground arith), given)
    ]
  ],
  ground arith,
)

-- Not both a response and a list of responses.
abbrev pub OneResponse : {A B : Type 0} → Option A → List B → Type 0
OneResponse response responses = (response ≡ none) ⊎ (responses ≡ [])

abbrev pub ConnectionScheduleIsValid : Parsers → Schedule → Type 0
ConnectionScheduleIsValid p s =
    HasTrigger p s
    × OneResponse s.response s.responses
    × ((is_some s.response ≡ true) ⊎ (is_empty s.responses ≡ false) ⊎ (is_empty s.steps ≡ false))

abbrev pub WebSocketIsValid : Parsers → Resource → Type 0
WebSocketIsValid p r =
    ((r.on ≡ "") ⊎ (r.on ≡ "open") ⊎ (r.on ≡ "message") ⊎ (r.on ≡ "close"))
    × ((r.schedule ≡ []) ⊎ (r.on ≡ "open"))
    × (r.passthrough ≡ "")
    × All (ConnectionScheduleIsValid p) r.schedule

abbrev pub OtherIsValid : Resource → Type 0
OtherIsValid r = (r.on ≡ "") × (r.responses ≡ []) × (r.schedule ≡ [])

abbrev pub ResourceIsValid : Parsers → Config → Resource → Type 0
ResourceIsValid p cfg r =
    OneResponse r.response r.responses
    × (if cfg.plugin == "websocket" then WebSocketIsValid p r else OtherIsValid r)
    × ((r.passthrough ≡ "") ⊎ ((u : Upstream) × (lookup r.passthrough cfg.upstreams ≡ some u)))

abbrev pub InterceptorIsValid : Interceptor → Type 0
InterceptorIsValid i = (i.responses ≡ []) × (i.schedule ≡ [])

abbrev pub ScheduleIsValid : Parsers → Schedule → Type 0
ScheduleIsValid p s =
    HasTrigger p s × (is_empty s.steps ≡ false) × (s.response ≡ none) × (s.responses ≡ [])

abbrev pub UpstreamIsValid : Parsers → String × Upstream → Type 0
UpstreamIsValid p (name, u) =
    (scheme : String) × (host : String) × (p.url_parse u.url ≡ some (scheme, host))
    × (scheme ≢ "")
    × (host ≢ "")

pub record ConfigIsValid (p : Parsers) (cfg : Config) : Type 0 where
  pub upstreams : All (UpstreamIsValid p) cfg.upstreams
  pub resources : All (ResourceIsValid p cfg) cfg.resources
  pub interceptors : All InterceptorIsValid cfg.interceptors
  pub schedules : All (ScheduleIsValid p) cfg.schedules

and_then-none : (a b : Option Invalid) → and_then a b ≡ none → (a ≡ none) × (b ≡ none)
and_then-none none b e = (refl, e)
and_then-none (some error) b e = absurd (ground arith)

nil_of_is_empty : {A : Type 0} (xs : List A) → is_empty xs ≡ true → xs ≡ []
nil_of_is_empty [] e = refl
nil_of_is_empty (x ∷ xs) e = absurd (ground arith)

none_of_is_none : {A : Type 0} (o : Option A) → is_some o ≡ false → o ≡ none
none_of_is_none none e = refl
none_of_is_none (some a) e = absurd (ground arith)

one_response :
    {A B : Type 0} (o : Option A) (xs : List B)
    → (is_some o && not (is_empty xs)) ≡ false
    → OneResponse o xs
one_response none xs e = inl refl
one_response (some a) xs e = inr (nil_of_is_empty xs (ground arith))

validate_connection_schedules-All :
    (p : Parsers) (i : ℕ) (ss : List Schedule)
    → validate_connection_schedules p i ss ≡ none
    → All (ConnectionScheduleIsValid p) ss
unfolding validate_connection_schedules
validate_connection_schedules-All p i [] e = tt
validate_connection_schedules-All p i (s ∷ ss) e =
    let (trigger, rest) = and_then-none (validate_schedule_trigger p s (schedule_desc s i)) _ e in
    (
      (
        validate_schedule_trigger-HasTrigger p s (schedule_desc s i) trigger,
        one_response s.response s.responses (ground arith),
        elim (Bool-cases (is_some s.response)) [
          | inl single ↦ inl single
          | inr missing ↦ elim (Bool-cases (is_empty s.responses)) [
            | inr several ↦ inr (inl several)
            | inl empty ↦ inr (inr (ground arith))
          ]
        ],
      ),
      validate_connection_schedules-All p (i + 1) ss (ground arith),
    )

on_open : (m : RequestMatcher) → (normalised_on m == "open") ≡ true → m.on ≡ "open"
unfolding normalised_on
on_open m e = elim (Bool-cases (m.on == "")) [
  | inl empty ↦
      absurd (absent (ap (λ b. (if b then "message" else m.on) == "open") (sym empty) ∙ e))
  | inr given ↦
      (eq_iff m.on "open").0 (ap (λ b. (if b then "message" else m.on) == "open") (sym given) ∙ e)
]
  where
    absent : ("message" == "open") ≡ true → ⊥
    absent e' = cc

validate_websocket-WebSocketIsValid :
    (p : Parsers) (r : Resource) → validate_websocket p r ≡ none → WebSocketIsValid p r
unfolding validate_websocket
validate_websocket-WebSocketIsValid p r e = (
  elim (Bool-cases (r.on == "")) [
    | inl empty ↦ inl ((eq_iff r.on "").0 empty)
    | inr a ↦ elim (Bool-cases (r.on == "open")) [
      | inl at_open ↦ inr (inl ((eq_iff r.on "open").0 at_open))
      | inr b ↦ elim (Bool-cases (r.on == "message")) [
        | inl at_message ↦ inr (inr (inl ((eq_iff r.on "message").0 at_message)))
        | inr c ↦ inr (inr (inr (ground (arith, eq_iff r.on "close"))))
      ]
    ]
  ],
  elim (Bool-cases (is_empty r.schedule)) [
    | inl empty ↦ inl (nil_of_is_empty r.schedule empty)
    | inr scheduled ↦ inr (on_open r.request_matcher (ground arith))
  ],
  ground (arith, eq_iff r.passthrough ""),
  validate_connection_schedules-All p 0 r.schedule (ground arith),
)

validate_other_plugin-OtherIsValid :
    (r : Resource) → validate_other_plugin r ≡ none → OtherIsValid r
unfolding validate_other_plugin
validate_other_plugin-OtherIsValid r e = (
  ground (arith, eq_iff r.on ""),
  nil_of_is_empty r.responses (ground arith),
  nil_of_is_empty r.schedule (ground arith),
)

fields_valid :
    (p : Parsers) (websocket : Bool) (r : Resource)
    → (if websocket then validate_websocket p r else validate_other_plugin r) ≡ none
    → if websocket then WebSocketIsValid p r else OtherIsValid r
fields_valid p true r e = validate_websocket-WebSocketIsValid p r e
fields_valid p false r e = validate_other_plugin-OtherIsValid r e

validate_resources-All :
    (p : Parsers) (cfg : Config) (rs : List Resource)
    → validate_resources p cfg rs ≡ none
    → All (ResourceIsValid p cfg) rs
unfolding validate_resources validate_web_socket_fields
validate_resources-All p cfg [] e = tt
validate_resources-All p cfg (r ∷ rs) e =
    let (fields, rest) =
      and_then-none (validate_web_socket_fields p cfg r)
        (reject (not (r.passthrough == "") && is_none (lookup r.passthrough cfg.upstreams))
          (unknown_upstream r.path r.passthrough) (validate_resources p cfg rs))
        (ground arith) in
    (
      (
        one_response r.response r.responses (ground arith),
        fields_valid p (cfg.plugin == "websocket") r fields,
        elim (Bool-cases (r.passthrough == "")) [
          | inl absent ↦ inl ((eq_iff r.passthrough "").0 absent)
          | inr given ↦ elim (Option-cases (lookup r.passthrough cfg.upstreams)) [
            | inl missing ↦ absurd (ground arith)
            | inr found ↦ inr found
          ]
        ],
      ),
      validate_resources-All p cfg rs (ground arith),
    )

validate_interceptors-All :
    (is : List Interceptor) → validate_interceptors is ≡ none → All InterceptorIsValid is
unfolding validate_interceptors
validate_interceptors-All [] e = tt
validate_interceptors-All (i ∷ is) e = (
  (nil_of_is_empty i.responses (ground arith), nil_of_is_empty i.schedule (ground arith)),
  validate_interceptors-All is (ground arith),
)

validate_schedules-All :
    (p : Parsers) (i : ℕ) (ss : List Schedule)
    → validate_schedules p i ss ≡ none
    → All (ScheduleIsValid p) ss
unfolding validate_schedules
validate_schedules-All p i [] e = tt
validate_schedules-All p i (s ∷ ss) e =
    let (trigger, rest) = and_then-none (validate_schedule_trigger p s (schedule_desc s i)) _ e in
    (
      (
        validate_schedule_trigger-HasTrigger p s (schedule_desc s i) trigger,
        ground arith,
        none_of_is_none s.response (ground arith),
        nil_of_is_empty s.responses (ground arith),
      ),
      validate_schedules-All p (i + 1) ss (ground arith),
    )

validate_upstreams-All :
    (p : Parsers) (us : Map Upstream) → validate_upstreams p us ≡ none → All (UpstreamIsValid p) us
unfolding validate_upstreams
validate_upstreams-All p [] e = tt
validate_upstreams-All p ((name, u) ∷ us) e = elim (Option-cases (p.url_parse u.url)) [
  | inl wrong ↦ absurd (ground arith)
  | inr ((scheme, host), parsed) ↦ (
    (scheme, host, parsed, ground (arith, eq_iff scheme ""), ground (arith, eq_iff host "")),
    validate_upstreams-All p us (ground arith),
  )
]

-- A configuration that passes has upstreams with a scheme and a host; resources with one kind of
-- response, the fields that their plugin has, and a known upstream if they name one; interceptors without
-- lists of responses and schedules; and schedules with one trigger that can be read, steps and no
-- response.
pub validate-ConfigIsValid :
    (p : Parsers) (cfg : Config) → validate p cfg ≡ none → ConfigIsValid p cfg
unfolding validate
validate-ConfigIsValid p cfg e =
    let (upstreams, e1) = and_then-none (validate_upstreams p cfg.upstreams) _ e in
    let (resources, e2) = and_then-none (validate_resources p cfg cfg.resources) _ e1 in
    let (interceptors, schedules) = and_then-none (validate_interceptors cfg.interceptors) _ e2 in
    record {
      upstreams = validate_upstreams-All p cfg.upstreams upstreams;
      resources = validate_resources-All p cfg cfg.resources resources;
      interceptors = validate_interceptors-All cfg.interceptors interceptors;
      schedules = validate_schedules-All p 0 cfg.schedules schedules;
    }
