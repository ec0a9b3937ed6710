-- ===== src/Webhook/Requests.antt =====
-- What the admission webhooks read, and what they answer.
use Prim.Native.String.{◌++◌}
use egressgateway.Prelude.{
  ok, err, panic, no_fuel, true, false, none, some, Bool, String, Result, Error, if◌then◌else◌,
  Option, List, ◌>>=◌,
}
use egressgateway.Controller.Flow.{Exec, is_not_found}
use egressgateway.Api.{EgressGateway}

-- req.Operation
pub data Operation : Type 0 where
  create update delete connect : Operation

abbrev pub is_delete : Operation → Bool
is_delete Operation.delete = true
is_delete _ = false

abbrev pub is_update : Operation → Bool
is_update Operation.update = true
is_update _ = false

abbrev pub is_create : Operation → Bool
is_create Operation.create = true
is_create _ = false

-- webhook.AdmissionRequest, its objects as json.Unmarshal reads them
pub record AdmissionRequest (X : Type 0) : Type 0 where
  pub operation : Operation
  pub name : String
  pub object : Result X
  pub old_object : Result X

-- client.Client, as far as the webhooks call it; the namespace is given by its labels
pub record WebhookClient (S : Type 0) : Type 0 where
  pub get_gateway : String → Exec S EgressGateway
  pub list_gateways : Exec S (List EgressGateway)
  pub get_namespace : String → Exec S (List (String × String))

-- config.FileConfig
pub record WebhookConfig : Type 0 where
  pub enable_ipv4 : Bool
  pub enable_ipv6 : Bool

-- A check that validates ends with a value for webhook.Allowed, and with an error for
-- webhook.Denied.
abbrev pub denied : {A : Type 0} → String → Result A
denied text = err (Error.message text)

abbrev pub deny_if : Bool → String → Result (Unit {0})
deny_if c text = if c then denied text else ok tt

-- `if err != nil { return webhook.Denied(fmt.Sprintf("…: %v", err)) }`
abbrev pub or_denied : {A : Type 0} → String → Result A → Result A
or_denied text (err e) = denied text
or_denied text (ok a) = ok a
or_denied text panic = panic
or_denied text no_fuel = no_fuel

-- the text of an error, before another text
abbrev pub text_of : Error → String
text_of (Error.message text) = text
text_of _ = ""

abbrev pub prefixed : {A : Type 0} → String → Result A → Result A
prefixed text (err e) = denied (text ++ text_of e)
prefixed text (ok a) = ok a
prefixed text panic = panic
prefixed text no_fuel = no_fuel

abbrev pub call_or_denied : {S A : Type 0} → String → Exec S A → Exec S A
call_or_denied text m s = let r = m s in (or_denied text r.0, r.1)

abbrev pub prefixed_call : {S A : Type 0} → String → Exec S A → Exec S A
prefixed_call text m s = let r = m s in (prefixed text r.0, r.1)

-- the same for a call of Get whose object may be missing
abbrev pub found : {A : Type 0} → String → Result A → Result (Option A)
found text (err e) = if is_not_found e then ok none else denied text
found text (ok a) = ok (some a)
found text panic = panic
found text no_fuel = no_fuel

abbrev pub found_or_denied : {S A : Type 0} → String → Exec S A → Exec S (Option A)
found_or_denied text m s = let r = m s in (found text r.0, r.1)

-- one check after the other
infixl 5 ◌then_check◌
abbrev pub ◌then_check◌ : {A : Type 0} → Result (Unit {0}) → Result A → Result A
r then_check next = r >>= λ _. next
