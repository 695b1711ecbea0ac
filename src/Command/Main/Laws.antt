-- ===== src/Command/Main/Laws.antt =====
-- What main has checked when its loop begins, and when it ends before.
use slo_exporter.Prelude.{
  ℕ, String, ◌≡◌, ◌↔◌, refl, Bool, true, false, ◌==◌, Option, some, List, arith, Option-cases,
  Bool-cases, inl, inr,
}
use slo_exporter.Prelude.Results.{ok, err, Result-cases}
use slo_exporter.Command.Main.{
  Config, Viper, Flags, Exit, no_config_file, invalid_log_level, config_not_loaded,
  pipeline_not_made, config_is_valid, exit_code, load_from_file, create_module, log_level_of,
  configure,
}
use slo_exporter.Pipeline.{PipelineItem, new_manager}

module _ {C : Type 0} (flags : Flags) (env_log_level : Option String) (is_level : String → Bool)
    (viper : Viper C) (new_from : String → C → Option ℕ) where
  -- The configuration file is given and can be loaded, the log level is one, and the modules can be
  -- made of it and linked.
  abbrev pub IsValid : Config → List PipelineItem → Type 0
  IsValid config pipeline =
      ((flags.config_file == "") ≡ false)
      × (is_level (log_level_of flags env_log_level) ≡ true)
      × (viper.opened ≡ true)
      × (viper.read ≡ true)
      × (viper.unmarshalled ≡ some config)
      × (new_manager (create_module viper new_from) config.pipeline ≡ ok pipeline)

  load_from_file_iff :
      (config : Config)
      → (load_from_file viper ≡ some config)
        ↔ ((viper.opened ≡ true) × (viper.read ≡ true) × (viper.unmarshalled ≡ some config))
  unfolding load_from_file
  load_from_file_iff config = ((λ e. ground arith), (λ h. ground arith))

  -- What main has behind the test of the log level.
  pub configure_ok :
      (config : Config) (pipeline : List PipelineItem)
      → (configure flags env_log_level is_level viper new_from ≡ ok (config, pipeline))
        ↔ ((flags.version ≡ false) × (flags.check_config ≡ false) × IsValid config pipeline)
  unfolding configure
  configure_ok config pipeline = (
    (λ e. ground (arith, load_from_file_iff config)),
    (λ h. ground (arith, load_from_file_iff config)),
  )

  -- The program ends with the code 0 exactly when the configuration is valid.
  abbrev Checks : Exit → Type 0
  Checks e =
      (exit_code e ≡ 0)
      ↔ ((config : Config) × (pipeline : List PipelineItem) × IsValid config pipeline)

  refuses :
      (e : Exit)
      → exit_code e ≡ 1
      → ((config : Config) (pipeline : List PipelineItem) → ¬ IsValid config pipeline)
      → Checks e
  refuses e code invalid =
      ((λ h. absurd (omega arith)), (λ (config, pipeline, v). absurd (invalid config pipeline v)))

  checked_pipeline :
      flags.version ≡ false
      → flags.check_config ≡ true
      → (flags.config_file == "") ≡ false
      → is_level (log_level_of flags env_log_level) ≡ true
      → (config : Config) → load_from_file viper ≡ some config
      → (e : Exit) × (configure flags env_log_level is_level viper new_from ≡ err e) × Checks e
  unfolding configure
  checked_pipeline shown checked given level config loaded =
      elim (Result-cases (new_manager (create_module viper new_from) config.pipeline)) [
        | inl (pipeline, made) ↦ (
          config_is_valid,
          ground arith,
          (
            (λ h. (
              config,
              pipeline,
              (
                given,
                level,
                ((load_from_file_iff config).0 loaded).0,
                ((load_from_file_iff config).0 loaded).1,
                ((load_from_file_iff config).0 loaded).2,
                made,
              ),
            )),
            (λ v. refl),
          ),
        )
        | inr (x, unmade) ↦ (
          pipeline_not_made x,
          ground arith,
          refuses (pipeline_not_made x) refl (λ c p v. ground (arith, load_from_file_iff c)),
        )
      ]

  configure_check :
      flags.version ≡ false
      → flags.check_config ≡ true
      → (e : Exit) × (configure flags env_log_level is_level viper new_from ≡ err e) × Checks e
  unfolding configure
  configure_check shown checked = elim (Bool-cases (flags.config_file == "")) [
    | inl missing ↦ (
      no_config_file,
      ground arith,
      refuses no_config_file refl (λ c p v. ground (arith, load_from_file_iff c)),
    )
    | inr given ↦ elim (Bool-cases (is_level (log_level_of flags env_log_level))) [
      | inr unknown ↦ (
        invalid_log_level,
        ground arith,
        refuses invalid_log_level refl (λ c p v. ground (arith, load_from_file_iff c)),
      )
      | inl level ↦ elim (Option-cases (load_from_file viper)) [
        | inl unread ↦ (
          config_not_loaded,
          ground arith,
          refuses config_not_loaded refl (λ c p v. ground (arith, load_from_file_iff c)),
        )
        | inr (config, loaded) ↦ checked_pipeline shown checked given level config loaded
      ]
    ]
  ]

  -- main gets past the configuration exactly when neither the version nor a check is asked for, and
  -- the configuration is valid: its file is given, opened, read and unmarshalled, the log level is one,
  -- and the modules can be made of it and linked. A check, where the version is not asked for, ends the
  -- program with the code 0 exactly when the configuration is valid.
  pub configure_iff :
      ((config : Config) (pipeline : List PipelineItem)
        → (configure flags env_log_level is_level viper new_from ≡ ok (config, pipeline))
          ↔ ((flags.version ≡ false) × (flags.check_config ≡ false) × IsValid config pipeline))
      × (flags.version ≡ false
          → flags.check_config ≡ true
          → (e : Exit) × (configure flags env_log_level is_level viper new_from ≡ err e)
            × ((exit_code e ≡ 0)
                ↔ ((config : Config) × (pipeline : List PipelineItem) × IsValid config pipeline)))
  configure_iff = (configure_ok, configure_check)
