-- ===== src/Profiles/Invoice/Report.antt =====
-- The dates and references of validateInvoice in sdk/src/profiles/invoice.ts, and its report.
-- `resolve` is `options.resolveReference`, the caller's; it answers none where it throws or answers
-- nothing.
use direct_trade_protocol.Prelude.{
  ℕ, suc, ◌-◌, Bool, true, false, not, ◌&&◌, ◌||◌, Option, none, some, List, [], ◌∷◌, ◌++◌, map,
  any, leb, if◌then◌else◌, Text, codes, ◌===◌, take,
}
use direct_trade_protocol.Decimal.{pad_end}
use direct_trade_protocol.Canonical.{Json, undefined, str, Items, nil, item, Members, before}
use direct_trade_protocol.Inventory.{timestamp_shape}
use direct_trade_protocol.Authority.Charter.{uuid}
use direct_trade_protocol.Store.Transitions.{get, is_text, is_null}
use direct_trade_protocol.Profiles.Issues.{at}
use direct_trade_protocol.Profiles.Shapes.{array}
use direct_trade_protocol.Profiles.Dates.{drop, number_at, is_leap, month_lengths, nth}
use direct_trade_protocol.Profiles.Party.{distinct_items}
use direct_trade_protocol.Profiles.Invoice.{
  IssueCode, invalid_shape, invalid_date, reference_missing, reference_unknown,
  reference_inaccessible, reference_mismatch, Fault, fault_if, object_members, check_amounts,
}

-- The text names a day of the calendar and a time of the day, so that it is printed back.
unfoldable pub real_time : Text → Bool
real_time s =
    let m = number_at 5 2 s in
    let d = number_at 8 2 s in
    leb 1 m
    && leb m 12
    && leb 1 d
    && leb d (nth (m - 1) (month_lengths (is_leap (number_at 0 4 s))))
    && leb (number_at 11 2 s) 23
    && leb (number_at 14 2 s) 59
    && leb (number_at 17 2 s) 59

abbrev without_last : Text → Text
without_last [] = []
without_last (c ∷ []) = []
without_last (c ∷ d ∷ s) = c ∷ without_last (d ∷ s)

-- To the microsecond; a text of 20 units has no fraction.
abbrev normal_date : Text → Text
normal_date s = take 19 s ++ codes "." ++ pad_end 6 (without_last (drop 20 s)) ++ codes "Z"

unfoldable pub read_date : Json → Text → Option Text × List Fault
unfolding timestamp_shape real_time
read_date (str s) path =
    if timestamp_shape s && real_time s
    then (some (normal_date s), [])
    else (none, (invalid_date, path) ∷ [])
read_date v path = (none, (invalid_date, path) ∷ [])

abbrev due_before : Option Text → Option Text → Bool
due_before (some issued) (some due) = before due issued
due_before _ _ = false

unfoldable pub check_dates : Members → List Fault
unfolding read_date
check_dates b =
    let issued = read_date (get b (codes "issued_at")) (codes "issued_at") in
    let due = read_date (get b (codes "due_at")) (codes "due_at") in
    issued.1 ++ due.1 ++ fault_if (due_before issued.0 due.0) invalid_date (codes "due_at")

pub data Observation : Type 0 where
  present : Text → Option Text → Option Text → Observation
  missing unknown inaccessible : Observation

pub data Severity : Type 0 where
  error unresolved : Severity

pub record InvoiceIssue : Type 0 where
  pub code : IssueCode
  pub path : Text
  pub severity : Severity

-- `valid` and `complete` of a report.
pub record Report : Type 0 where
  pub valid : Bool
  pub complete : Bool
  pub issues : List InvoiceIssue

abbrev pub as_error : Fault → InvoiceIssue
as_error f = record { code = f.0; path = f.1; severity = error }

abbrev pub is_error : InvoiceIssue → Bool
is_error i = elim i.severity [ error ↦ true | unresolved ↦ false ]

-- An id, the type that it should have, and its path.
pub record Reference : Type 0 where
  pub id : Json
  pub type : Text
  pub path : Text

unfoldable pub settlements : ℕ → Items → List Reference
settlements i nil = []
settlements i (item v vs) =
    record {
      id = v;
      type = codes "finance.settlement_event";
      path = at (codes "settlement_event_ids") i;
    }
    ∷ settlements (suc i) vs

abbrev is_undefined : Json → Bool
is_undefined undefined = true
is_undefined v = false

abbrev fulfillment : Json → List Reference
fulfillment v =
    if is_null v || is_undefined v
    then []
    else record { id = v; type = codes "trade.fulfillment"; path = codes "fulfillment_id" } ∷ []

-- The references of a body, with the faults found on the way.
unfoldable pub references : Members → List Reference × List Fault
unfolding settlements
references b =
    let first =
      record {
        id = get b (codes "contract_id");
        type = codes "trade.contract";
        path = codes "contract_id";
      }
      ∷ fulfillment (get b (codes "fulfillment_id")) in
    elim (array 0 1000 (get b (codes "settlement_event_ids"))) [
      | none ↦ (first, (invalid_shape, codes "settlement_event_ids") ∷ [])
      | some ids ↦ (
        first ++ settlements 0 ids,
        fault_if (not (distinct_items ids)) reference_mismatch (codes "settlement_event_ids"),
      )
    ]

-- `observation[party] !== undefined && observation[party] !== body[party]`
abbrev other_party : Option Text → Json → Bool
other_party none v = false
other_party (some id) v = not (is_text v id)

unfoldable pub check_observation : Members → Reference → Observation → List InvoiceIssue
check_observation b r (present type seller buyer) = map as_error (
    fault_if (not (type === r.type)) reference_mismatch r.path
    ++ fault_if (other_party seller (get b (codes "seller_company_id"))) reference_mismatch r.path
    ++ fault_if (other_party buyer (get b (codes "buyer_company_id"))) reference_mismatch r.path)
check_observation b r missing =
    record { code = reference_missing; path = r.path; severity = unresolved } ∷ []
check_observation b r unknown =
    record { code = reference_unknown; path = r.path; severity = unresolved } ∷ []
check_observation b r inaccessible =
    record { code = reference_inaccessible; path = r.path; severity = unresolved } ∷ []

abbrev or_unknown : Option Observation → Observation
or_unknown none = unknown
or_unknown (some o) = o

module _ (resolve : Text → Text → Option Observation) where
  unfoldable pub check_reference : Members → Reference → List InvoiceIssue
  unfolding check_observation uuid
  check_reference b r = elim r.id [
    | str id ↦
        if uuid id
        then check_observation b r (or_unknown (resolve id r.type))
        else as_error (invalid_shape, r.path) ∷ []
    | _ ↦ as_error (invalid_shape, r.path) ∷ []
  ]

  unfoldable pub check_references : Members → List Reference → List InvoiceIssue
  unfolding check_reference
  check_references b [] = []
  check_references b (r ∷ rs) = check_reference b r ++ check_references b rs

  -- The issues in order: all but those of the references are errors.
  unfoldable pub invoice_issues : Json → List InvoiceIssue
  unfolding check_amounts check_dates references check_references
  invoice_issues body = elim (object_members body) [
    | none ↦ as_error (invalid_shape, codes "$") ∷ []
    | some b ↦
        map as_error (check_amounts b)
        ++ map as_error (check_dates b)
        ++ map as_error (references b).1
        ++ check_references b (references b).0
  ]

  unfoldable pub validate_invoice : Json → Report
  unfolding invoice_issues
  validate_invoice body =
      let issues = invoice_issues body in
      record {
        valid = not (any is_error issues);
        complete = elim issues [ [] ↦ true | i ∷ is ↦ false ];
        issues = issues;
      }
