-- ===== src/Api/Idempotency.antt =====
-- src/req_tracker/api/idempotency.py: keys by which a client may send a command again.
use se_1_rune_agent.Base.{
  String, Bool, false, not, Option, none, some, ◌∷◌, [], ◌==◌, truthy, if◌then◌else◌,
}
use se_1_rune_agent.Base.Dict.{Dict, get}
use se_1_rune_agent.Base.Text.{concat, strip}
use se_1_rune_agent.Exec.{Result, ok, raised, http_exception}

-- A stored record, with `none` for what is missing or of another type. `R` is the type of the
-- response dicts.
pub record IdempotencyRecord (R : Type 0) : Type 0 where
  pub record_id : String
  pub idempotency_key : String
  pub command : String
  pub project_key : Option String
  pub request_hash : Option String
  pub response : Option R

pub record IdempotencyContext (R : Type 0) : Type 0 where
  pub key : Option String
  pub record_id : Option String
  pub request_hash : String
  pub cached_response : Option R

pub record KeyHeaders : Type 0 where
  pub idempotency_key : Option String
  pub x_idempotency_key : Option String

-- `a or b` of two optional headers.
abbrev or_header : Option String → Option String → Option String
or_header a b = if truthy a then a else b

abbrev non_empty : String → Option String
non_empty s = if s == "" then none else some s

unfoldable pub idempotency_key : KeyHeaders → Option String
idempotency_key h = elim (or_header h.idempotency_key h.x_idempotency_key) [
  | none ↦ none
  | some key ↦ non_empty (strip key)
]

unfoldable pub idempotency_record_id : String → String → String
idempotency_record_id command key = concat (command ∷ ":" ∷ key ∷ [])

abbrev pub same_hash : Option String → String → Bool
same_hash none h = false
same_hash (some g) h = g == h

module _ {R : Type 0} where
  -- The outcome for a record that is there.
  abbrev pub replay : String → String → String → IdempotencyRecord R → Result (IdempotencyContext R)
  replay key record_id request_hash existing =
      if not (same_hash existing.request_hash request_hash)
      then raised (http_exception 409 "idempotency key reused with different request")
      else elim existing.response [
        | none ↦ raised (http_exception 500 "invalid idempotency record")
        | some response ↦ ok (record {
          key = some key;
          record_id = some record_id;
          request_hash = request_hash;
          cached_response = some response;
        })
      ]

  -- `prepare_idempotency`, from the hash of the payload.
  unfoldable pub prepare_idempotency :
      KeyHeaders → Dict (IdempotencyRecord R) → String → String → Result (IdempotencyContext R)
  prepare_idempotency h results command request_hash = elim (idempotency_key h) [
    | none ↦ ok (record {
      key = none;
      record_id = none;
      request_hash = request_hash;
      cached_response = none;
    })
    | some key ↦
        let record_id = idempotency_record_id command key in
        elim (get results record_id) [
          | none ↦ ok (record {
            key = some key;
            record_id = some record_id;
            request_hash = request_hash;
            cached_response = none;
          })
          | some existing ↦ replay key record_id request_hash existing
        ]
  ]
