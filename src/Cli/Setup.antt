-- ===== src/Cli/Setup.antt =====
-- internal/cli/cli.go: from the flags to the runner's configuration and its catalog checker.
use ratatoskr_go.Base.{
  Bool, true, false, ◌&&◌, ◌⊎◌, inl, inr, Option, none, some, List, [], ◌∷◌, Text, is_empty, ◌==◌,
  if◌then◌else◌,
}
use ratatoskr_go.Base.Int.{ℤ}
use ratatoskr_go.Lint as Lint

pub data Mode : Type 0 where
  mode_lint mode_check mode_validate : Mode

-- The flags, less those of the timing and of the telemetry server.
pub record Flags : Type 0 where
  pub prom_rules : List Text
  pub loki_rules : List Text
  pub dashboards : List Text
  pub prometheus_url : Text
  pub loki_url : Text
  pub tempo_url : Text
  pub prom_headers : List Text
  pub allowlist : Text
  pub cache_dir : Text
  pub offline : Bool
  pub output : Text
  pub format : Text
  pub exit_zero : Bool
  pub jobs : ℤ
  pub require_severity : Bool
  pub no_lint_defaults : Bool
  pub watch : Bool

abbrev pub no_checks : Lint.Config
no_checks = record {
  require_severity = false;
  require_annotations = [];
  detect_duplicate_alerts = false;
  for_gte_interval = [];
  check_empty_expr = false;
}

unfoldable pub lint_config : Flags → Lint.Config
lint_config f =
    if f.no_lint_defaults
    then record no_checks { require_severity = f.require_severity }
    else record (Lint.default_config) { require_severity = f.require_severity }

unfoldable pub all_off_lint_config : Lint.Config
all_off_lint_config = record no_checks { for_gte_interval = Lint.for_gte_interval_off }

-- What stands before the first '=', and what after it; none without one.
unfoldable pub cut_at_equals : Text → Option (Text × Text)
cut_at_equals [] = none
cut_at_equals (c ∷ rest) = elim (c == b'=') [
  | true ↦ some ([], rest)
  | false ↦ elim (cut_at_equals rest) [ none ↦ none | some (k, v) ↦ some (c ∷ k, v) ]
]

-- A header list in the order in which `Add` is called; its error is the malformed text.
unfoldable pub parse_headers : List Text → Text ⊎ List (Text × Text)
parse_headers [] = inr []
parse_headers (kv ∷ raw) = elim (cut_at_equals kv) [
  | none ↦ inl kv
  | some ([], v) ↦ inl kv
  | some (c ∷ k, v) ↦ elim (parse_headers raw) [ inl bad ↦ inl bad | inr h ↦ inr ((c ∷ k, v) ∷ h) ]
]

pub data ConfigError : Type 0 where
  prometheus_header mimir_client loki_client tempo_client : Text → ConfigError
  no_endpoint : ConfigError
  allowlist_open allowlist_parse : Text → ConfigError

-- `catalog.Checker` as the command line fills it in: each client with its source.
pub record CheckerSetup (P L T St A : Type 0) : Type 0 where
  pub prom : Option (P × Text)
  pub loki : Option (L × Text)
  pub tempo : Option (T × Text)
  pub store : Option St
  pub allow : Option A

-- `Env`: the constructors of the clients and of the store, and the allowlist file, opened and
-- loaded. The loading gives an error of the opening, an error of the parsing, or the list.
pub record Env (P L T St A : Type 0) : Type 0 where
  pub new_mimir : Text → List (Text × Text) → Text ⊎ P
  pub new_loki : Text → Text ⊎ L
  pub new_tempo : Text → Text ⊎ T
  pub new_fs_store : Text → St
  pub open_allowlist : Text → Text ⊎ (Text ⊎ A)

-- The runner's configuration as the command line fills it in; `Prewarm` is true.
pub record RunnerSetup (P L T St A : Type 0) : Type 0 where
  pub lint : Lint.Config
  pub checker : Option (CheckerSetup P L T St A)
  pub prewarm : Bool
  pub prewarm_parallelism : ℤ

module _ {P L T St A : Type 0} (env : Env P L T St A) where
  abbrev pub build_prom : Flags → ConfigError ⊎ Option (P × Text)
  build_prom f =
      if is_empty f.prometheus_url then inr none else elim (parse_headers f.prom_headers) [
        | inl bad ↦ inl (prometheus_header bad)
        | inr hdr ↦ elim (env.new_mimir f.prometheus_url hdr) [
          | inl err ↦ inl (mimir_client err)
          | inr mc ↦ inr (some (mc, f.prometheus_url))
        ]
      ]

  abbrev pub build_loki : Flags → ConfigError ⊎ Option (L × Text)
  build_loki f = if is_empty f.loki_url then inr none else elim (env.new_loki f.loki_url) [
    | inl err ↦ inl (loki_client err)
    | inr lc ↦ inr (some (lc, f.loki_url))
  ]

  abbrev pub build_tempo : Flags → ConfigError ⊎ Option (T × Text)
  build_tempo f = if is_empty f.tempo_url then inr none else elim (env.new_tempo f.tempo_url) [
    | inl err ↦ inl (tempo_client err)
    | inr tc ↦ inr (some (tc, f.tempo_url))
  ]

  abbrev pub build_allow : Flags → ConfigError ⊎ Option A
  build_allow f = if is_empty f.allowlist then inr none else elim (env.open_allowlist f.allowlist) [
    | inl err ↦ inl (allowlist_open err)
    | inr (inl err) ↦ inl (allowlist_parse err)
    | inr (inr al) ↦ inr (some al)
  ]

  -- `c.Prom == nil && c.Loki == nil && c.Tempo == nil`
  abbrev pub has_no_client : Option (P × Text) → Option (L × Text) → Option (T × Text) → Bool
  has_no_client none none none = true
  has_no_client _ _ _ = false

  unfoldable pub build_checker : Flags → ConfigError ⊎ CheckerSetup P L T St A
  build_checker f = elim (build_prom f) [
    | inl err ↦ inl err
    | inr prom ↦ elim (build_loki f) [
      | inl err ↦ inl err
      | inr loki ↦ elim (build_tempo f) [
        | inl err ↦ inl err
        | inr tempo ↦
            if has_no_client prom loki tempo then inl no_endpoint else elim (build_allow f) [
              | inl err ↦ inl err
              | inr allow ↦ inr (record {
                prom = prom;
                loki = loki;
                tempo = tempo;
                store = if is_empty f.cache_dir then none else some (env.new_fs_store f.cache_dir);
                allow = allow;
              })
            ]
      ]
    ]
  ]

  abbrev pub setup : Flags → Lint.Config → Option (CheckerSetup P L T St A) → RunnerSetup P L T St A
  setup f lint checker = record {
    lint = lint;
    checker = checker;
    prewarm = true;
    prewarm_parallelism = f.jobs;
  }

  abbrev pub attach :
      Flags
      → Lint.Config
      → ConfigError ⊎ CheckerSetup P L T St A
      → ConfigError ⊎ RunnerSetup P L T St A
  attach f lint (inl err) = inl err
  attach f lint (inr c) = inr (setup f lint (some c))

  unfoldable pub build_runner_config : Flags → Mode → ConfigError ⊎ RunnerSetup P L T St A
  build_runner_config f mode_lint = inr (setup f (lint_config f) none)
  build_runner_config f mode_check = attach f all_off_lint_config (build_checker f)
  build_runner_config f mode_validate =
      if f.offline
      then inr (setup f (lint_config f) none)
      else if is_empty f.prometheus_url && is_empty f.loki_url && is_empty f.tempo_url
      then inr (setup f (lint_config f) none)
      else attach f (lint_config f) (build_checker f)
