-- ===== src/Tests/Intents.antt =====
-- An intent of the paper canary, src/atp/store/base.py, on empty tables.
use text.Mathlib.Text.{◌==◌ as str_eq}
use aitrading.Common.{none, some, [], ◌≡◌, refl, if◌then◌else◌}
use aitrading.Common.Int.{pos}
use aitrading.Paper.Orders.{PaperStore}
use aitrading.Paper.Money.{ok}
use aitrading.Paper.Config.{paper_config}
use aitrading.Paper.Tables.{at}
use aitrading.Paper.Intents.{
  IntentExtern, IntentView, IntentRequest, IntentTerms, new_intent, insert_intent,
  get_or_create_paper_intent,
}
use aitrading.Paper.Intents.Once.{intent-intent}
use aitrading.Tests.Fill.{outside, canary_run}
use aitrading.Runtime.Positions.{buy}

abbrev hashes : IntentExtern
hashes = record {
  codec = outside.codec;
  order_hash = λ run key. key;
  request_hash = λ t checksum. checksum;
  event_hash = outside.event_hash;
}

abbrev view : IntentView
view = record { runs = λ id. if str_eq id "r1" then some canary_run else none; risk = ok "risk" }

abbrev wanted : IntentRequest
wanted = record {
  run_id = "r1";
  idempotency_key = "k1";
  decision_id = "d1";
  instrument = "ACME";
  side = "BUY";
  quantity = some (pos 1_000_000_000);
  quote_bid = some (pos 9_990_000_000);
  quote_ask = some (pos 10_000_000_000);
  quote_ts = at 1_000_000;
  risk_config_checksum = "risk";
  correlation_id = none;
  client_order_id = none;
  order_type = "MARKET";
}

abbrev wanted_terms : IntentTerms
wanted_terms = record {
  client_order_id = "k1";
  run_id = "r1";
  idempotency_key = "k1";
  decision_id = "d1";
  instrument = "ACME";
  side = buy;
  quantity = pos 1_000_000_000;
  order_type = "MARKET";
  quote_bid = pos 9_990_000_000;
  quote_ask = pos 10_000_000_000;
  quote_ts = 1_000_000;
  risk_config_checksum = "risk";
  correlation_id = none;
}

abbrev empty_store : PaperStore
empty_store = record { orders = []; events = [] }

-- The tables with the one order.
unfoldable one_order : PaperStore
unfolding insert_intent
one_order = insert_intent outside.event_hash wanted_terms "sum" 5 [] empty_store

wanted-created :
    get_or_create_paper_intent hashes view wanted 5 empty_store
    ≡ ok (new_intent wanted_terms "sum" 5, one_order)
unfolding get_or_create_paper_intent paper_config one_order
wanted-created = refl

intent-intent_example :
    get_or_create_paper_intent hashes view wanted 9 one_order
    ≡ ok (new_intent wanted_terms "sum" 5, one_order)
intent-intent_example =
    intent-intent hashes view wanted 5 9 empty_store (new_intent wanted_terms "sum" 5) one_order
      wanted-created
