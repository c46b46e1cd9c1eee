-- ===== src/Tests/ExportTests.antt =====
-- Statistics and export at concrete inputs.
use owlmatic.Prelude.{
  Text, codes, length, Bool-cases, inl, inr, ◌==◌, text_eq, if◌then◌else◌, ◌≡◌, refl, Bool, true,
  false, none, some, List, [], ◌∷◌, arith,
}
use owlmatic.Errors.{Error, ok, value_error, is_decoding_error, err, owl, export_transient}
use owlmatic.Domain.{State, Outcome, Effects, Purpose}
use owlmatic.Statistics.{
  SavingsBaseline, BaselineBasis, RunBucket, WorkflowStatistics, StatisticsReport,
  workflow_statistics, report, count_if, all_buckets, is_workflow, verified, is_failure,
}
use owlmatic.Export.{
  ExportScope, body, one, snapshot, ExportConfiguration, Mode, Encoding, Inputs, Outbox, push,
}
use owlmatic.Export.Consent.{IsBounded, snapshot-consented, consented}
use owlmatic.Export.{
  YamlPort, Site, Observability, default_observability, configuration, read_config, previous_of,
  disabled_of, disable, push_site,
}
use owlmatic.Export.Disabling.{disable-silent}
use owlmatic.Export.Numbering.{IsNumbered, Call, pushes, pushes-IsNumbered}

abbrev buckets : List RunBucket
buckets =
    record {
      day = 7;
      ref = "team/health@1";
      purpose = Purpose.workflow;
      state = State.completed;
      outcome = Outcome.pass;
      effects = Effects.none;
      count = 3;
      duration_ms = 900;
    }
    ∷ record {
      day = 7;
      ref = "team/health@1";
      purpose = Purpose.workflow;
      state = State.error;
      outcome = Outcome.inconclusive;
      effects = Effects.unknown;
      count = 1;
      duration_ms = 50;
    }
    ∷ record {
      day = 8;
      ref = "team/health@1";
      purpose = Purpose.validation;
      state = State.running;
      outcome = Outcome.inconclusive;
      effects = Effects.none;
      count = 2;
      duration_ms = 0;
    }
    ∷ []

abbrev a_baseline : SavingsBaseline
a_baseline = record {
  ref = "team/health@1";
  manual_tokens = 100;
  owlmatic_tokens = 10;
  setup_tokens = 300;
  basis = BaselineBasis.estimate;
  source = "guess";
  sample_size = 0;
}

abbrev a_report : StatisticsReport
a_report = report none "t9" "t0" 7 2 buckets (a_baseline ∷ [])

-- Three verified runs save 300, four attempts cost 40, the setup cost 300.
net_is_negative :
    (workflow_statistics "team/health@1" buckets (some a_baseline)).estimated_owlmatic_tokens
    ≡ some 40
unfolding workflow_statistics owlmatic.Statistics.count_if owlmatic.Statistics.modeled_cost
net_is_negative = refl

abbrev no_details : ExportScope
no_details = record {
  savings_estimates = false;
  daily_breakdown = true;
  workflow_identifiers = false;
}

small_report : IsBounded a_report 1
unfolding report
small_report = record {
  numbered = omega arith;
  some_days = omega arith;
  few_days = omega arith;
  few_daily = omega arith;
  few_workflows = omega arith;
}

snapshot-consented_example :
    snapshot (consented no_details false a_report) no_details "src" "snap" 1 one none false
    ≡ snapshot a_report no_details "src" "snap" 1 one none false
snapshot-consented_example = snapshot-consented a_report no_details "src" "snap" 1 one none false

abbrev a_configuration : ExportConfiguration
a_configuration = record {
  schema_version = one;
  source_label = none;
  include_measurements = false;
  mode = Mode.manual;
  window_days = 2;
  destination = some (record { endpoint = "https://example.test"; token_env = none });
  scope = no_details;
  delivery = record {
    timeout_seconds = 10;
    max_attempts = 5;
    retry_initial_seconds = 1;
    retry_max_seconds = 60;
    pending_retention_days = 7;
    max_pending_bytes = 100000;
  };
}

abbrev an_encoding : Encoding
an_encoding = record {
  configuration_digest = λ c. "config";
  payload_digest = λ s. (body s).generated_at;
  size = λ s. 10;
}

abbrev refused : Inputs
refused = record {
  now = 1000;
  later = 2000;
  new_source_id = "src";
  new_snapshot_id = "snap";
  report = a_report;
  answer = err (owl export_transient);
}

abbrev fresh : Outbox
fresh = record {
  state = record {
    source_id = none;
    sequence = 0;
    configuration_digest = none;
    pending = none;
    last_payload_digest = none;
  };
  sent = [];
}

abbrev a_call : Bool → Call
a_call retry = record {
  encoding = an_encoding;
  config = a_configuration;
  inputs = refused;
  retry = retry;
  automatic = false;
}

fresh-IsNumbered : IsNumbered fresh.state []
fresh-IsNumbered = record {
  latest = λ p h. absurd (ground arith);
  bounded = tt;
  same = λ p h. tt;
  unique = tt;
}

pushes-IsNumbered_example :
    IsNumbered
      (pushes (a_call false ∷ a_call true ∷ []) fresh).state
      (pushes (a_call false ∷ a_call true ∷ []) fresh).sent
pushes-IsNumbered_example =
    pushes-IsNumbered (a_call false ∷ a_call true ∷ []) fresh fresh-IsNumbered

-- The only text that is read is the one that is written.
abbrev a_yaml : YamlPort
a_yaml = record {
  load = λ t. if t == codes "off" then ok default_observability else err value_error;
  dump = λ o. codes "off";
}

-- A configuration that cannot be read, and a snapshot that waits for another attempt.
abbrev broken_site : Site
broken_site = record {
  file = some (codes "mode: [");
  outbox = (push an_encoding a_configuration refused false false fresh).1;
}

a_yaml-load :
    (content : Text) (x : Error) → a_yaml.load content ≡ err x → is_decoding_error x ≡ true
a_yaml-load content x h = elim (Bool-cases (content == codes "off")) [
  | inl off ↦ absurd (ground arith)
  | inr other ↦ ground arith
]

abbrev disabled_site : Site
disabled_site = (disable an_encoding a_yaml 2000 3000 broken_site).1

disable-silent_example :
    (o : Observability) × (previous_of (configuration a_yaml broken_site.file) ≡ ok o)
    × (disabled_site.file ≡ some (codes "off"))
    × (disabled_site.outbox.sent ≡ broken_site.outbox.sent)
    × ((push_site an_encoding a_yaml refused true false disabled_site).1.outbox.sent
        ≡ broken_site.outbox.sent)
disable-silent_example =
    disable-silent a_yaml a_yaml-load an_encoding 2000 3000 broken_site refused true false
      (λ o h. unfold configuration read_config previous_of disabled_of in ground arith)

one_sent : length broken_site.outbox.sent ≡ 1
unfolding push snapshot owlmatic.Export.enforce_scope owlmatic.Export.snapshot_body report
one_sent = refl
