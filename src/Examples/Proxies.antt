-- ===== src/Examples/Proxies.antt =====
-- Tests of the proxy: a body with its model, and requests that are refused or passed on.
use v_llm_orchestrator.Base.{
  pos, ◌≡◌, ◌≢◌, ◌≤◌, suc, refl, true, false, inr, none, some, [], ◌∷◌, ◌++◌, arith, eq_iff,
}
use v_llm_orchestrator.Memory.Parse.{Text, trim_space, trim_left, trim_right}
use v_llm_orchestrator.Process.Output.{codes}
use v_llm_orchestrator.Orchestrator.{emit, wrote, forwarded}
use v_llm_orchestrator.Orchestrator.Monad.{alone, done}
use v_llm_orchestrator.Requests.Setup.{resolve, lookup}
use v_llm_orchestrator.Proxy.{
  body, is_websocket, Request, forward_to_active, serve_http, inject_state, trim_braces,
}
use v_llm_orchestrator.Proxy.Body.{
  Token, open_brace, other_token, text, Decoder, Location, found, out_of_rounds, index_byte,
  quote_after, read_value, search_members, locate_top_level_model_value, locate, quoted,
  extract_model_field, splice, rewrite_model_field,
}
use v_llm_orchestrator.Proxy.Search.{Reads, locate-ends}
use v_llm_orchestrator.Proxy.Quoting.{utf8_bytes, go_quote}
use v_llm_orchestrator.Proxy.Rewrite.{arrived, skipped, ReadsModel, rewrite_model_field-replaces}
use v_llm_orchestrator.Proxy.Merge.{braces, inject_state-merges}
use v_llm_orchestrator.Proxy.Routes.{serve_http-refuses}
use v_llm_orchestrator.Proxy.Listing.{forward_to_active-first}
use v_llm_orchestrator.Samples.{orchestrator, world}

abbrev request_body : Text
request_body = codes "{\"n\":1,\"model\":\"s\"}"

-- Where the decoder stands in this body.
data Place : Type 0 where
  at_start in_object after_n after_one after_model after_name : Place

-- What encoding/json gives for this body.
abbrev decoder : Decoder Place
decoder = record {
  start = λ buf. at_start;
  token = λ p. elim p [
    | at_start ↦ some (open_brace, in_object)
    | in_object ↦ some (text "n", after_n)
    | after_n ↦ some (other_token, after_one)
    | after_one ↦ some (text "model", after_model)
    | after_model ↦ some (text "s", after_name)
    | after_name ↦ none
  ];
  decode = λ p. elim p [
    | at_start ↦ none
    | in_object ↦ none
    | after_n ↦ some after_one
    | after_one ↦ none
    | after_model ↦ some after_name
    | after_name ↦ none
  ];
  more = λ p. elim p [
    | at_start ↦ true
    | in_object ↦ true
    | after_n ↦ true
    | after_one ↦ true
    | after_model ↦ true
    | after_name ↦ false
  ];
  input_offset = λ p. elim p [
    | at_start ↦ 0
    | in_object ↦ 1
    | after_n ↦ 4
    | after_one ↦ 6
    | after_model ↦ 14
    | after_name ↦ 18
  ];
}

reads : Reads decoder request_body (λ p. Unit {0})
reads = record {
  at_start = tt;
  after_token = λ s s' t p q. (tt, after_token s s' t q);
  after_decode = λ s s' p q. (tt, after_decode s s' q);
  within = λ s p. within s;
}
  where
    after_token :
        (s s' : Place) (t : Token)
        → decoder.token s ≡ some (t, s')
        → suc (decoder.input_offset s) ≤ decoder.input_offset s'
    after_token at_start s' t q = ground arith
    after_token in_object s' t q = ground arith
    after_token after_n s' t q = ground arith
    after_token after_one s' t q = ground arith
    after_token after_model s' t q = ground arith
    after_token after_name s' t q = ground arith

    after_decode :
        (s s' : Place)
        → decoder.decode s ≡ some s'
        → suc (decoder.input_offset s) ≤ decoder.input_offset s'
    after_decode at_start s' q = ground arith
    after_decode in_object s' q = ground arith
    after_decode after_n s' q = ground arith
    after_decode after_one s' q = ground arith
    after_decode after_model s' q = ground arith
    after_decode after_name s' q = ground arith

    within : (s : Place) → decoder.input_offset s ≤ 19
    within at_start = omega arith
    within in_object = omega arith
    within after_n = omega arith
    within after_one = omega arith
    within after_model = omega arith
    within after_name = omega arith

locate-ends_example :
    (locate_top_level_model_value decoder request_body 25 ≡ locate decoder request_body)
    × (locate decoder request_body ≢ out_of_rounds)
locate-ends_example = locate-ends Place decoder request_body (λ p. Unit {0}) reads 25 (omega arith)

abbrev alias_location : Location
alias_location = record { value_start = pos 15; value_end = pos 17; value = "s" }

located : locate decoder request_body ≡ found alias_location
unfolding locate_top_level_model_value search_members read_value quote_after index_byte
located = refl

rewritten :
    rewrite_model_field decoder request_body "kleinü"
    ≡ some (codes "{\"n\":1,\"model\":\"klein" ++ (0xC3 ∷ 0xBC ∷ codes "\"}"))
unfolding rewrite_model_field splice quoted utf8_bytes locate_top_level_model_value search_members
    read_value quote_after index_byte
rewritten = refl

-- The body up to the end of the key, and the literal without its first quote.
abbrev up_to_key : Text
up_to_key = codes "{\"n\":1,\"model\""

abbrev alias_literal : Text
alias_literal = codes "s\""

reads_model : ReadsModel decoder up_to_key (codes ":") alias_literal (codes "}") "s"
reads_model = record {
  opened = in_object;
  at_field = after_one;
  after_key = after_model;
  after_value = after_name;
  opens = refl;
  skips = skipped "n" refl refl (λ e. ground (arith, eq_iff "n" "model")) refl (arrived after_one);
  more = refl;
  key_read = refl;
  value_read = refl;
  key_end = refl;
  value_end = refl;
  no_quote = (λ e. ground arith, tt);
}

rewrite_model_field-replaces_example :
    (extract_model_field decoder request_body ≡ "s")
    × (rewrite_model_field decoder request_body "small"
        ≡ some (up_to_key ++ (codes ":" ++ b'"' ∷ (utf8_bytes "small" ++ b'"' ∷ codes "}"))))
rewrite_model_field-replaces_example =
    rewrite_model_field-replaces Place decoder (λ p. Unit {0}) up_to_key (codes ":") alias_literal
      (codes "}") "s" "small" reads reads_model

-- `{"a":{"b":1}}`
abbrev nested : Text
nested = codes "{\"a\":{\"b\":1"

trimmed : trim_space (nested ++ braces 2) ≡ nested ++ braces 2
unfolding trim_space trim_left trim_right
trimmed = refl

ends_so : trim_braces nested ≡ nested
unfolding trim_braces
ends_so = refl

inject_state-merges_example :
    inject_state (λ c. true) (nested ++ braces 2) "sleep1"
    ≡ codes "{\"a\":{\"b\":1,\"orchestrator_state\":\"sleep1\"}"
unfolding go_quote
inject_state-merges_example = inject_state-merges (λ c. true) nested 2 "sleep1" trimmed ends_so

abbrev pub unknown : Request
unknown = record {
  path = "/v1/embeddings";
  method = "GET";
  upgrade = [];
  query_model = "other";
  content = body request_body;
}

unknown_name : resolve orchestrator "other" ≡ none
unfolding resolve lookup
unknown_name = refl

serve_http-refuses_example :
    serve_http decoder "v1" 0 30 unknown world orchestrator
    ≡ (done tt, emit (wrote 30 404) orchestrator)
unfolding is_websocket
serve_http-refuses_example =
    serve_http-refuses Place decoder world orchestrator "v1" 0 30 unknown refl
      (inr (inr unknown_name))

forward_to_active-first_example :
    ((forward_to_active 30 (1 ∷ 0 ∷ []) (alone world) orchestrator).0 ≡ done tt)
    × ((forward_to_active 30 (1 ∷ 0 ∷ []) (alone world) orchestrator).1.trace
        ≡ forwarded 30 "/run/vllm/small.sock" ∷ [])
forward_to_active-first_example = forward_to_active-first world 30 (1 ∷ 0 ∷ []) orchestrator
