-- ===== src/Config/Readings.antt =====
-- What `NewConfig` reads from the raw configuration, before the release to run is chosen and after
-- it (pkg/config/config.go).
use spicedb_operator.Base.{Bool, List, String, [], false, if◌then◌else◌, ◌++◌, ◌==◌, ◌∷◌}
use spicedb_operator.Base.Int.{ℤ}
use spicedb_operator.Base.Map.{Map}
use spicedb_operator.Config.Defaults.{
  dispatch_enabled_key, extra_pod_annotations_key, extra_pod_labels_key,
  extra_service_account_annotations_key, image_key, project_annotations_key, project_labels_key,
  skip_migrations_key, skip_tls_warning_key,
}
use spicedb_operator.Config.Keys.{pop_text}
use spicedb_operator.Config.Stages.{
  Texts, checked, checked_set, defaulting, drop_ignored, read_pdb, read_replicas, read_texts,
}
use spicedb_operator.Config.Types.{ConfigError, ConfigWarning, PdbConfig}
use spicedb_operator.Config.Values.{RawConfig, Scalar}

-- What is read from the raw configuration before the release to run is chosen.
pub record Read : Type 0 where
  pub texts : Texts
  pub project_labels : Bool
  pub project_annotations : Bool
  pub image : String
  pub warnings : List ConfigWarning
  pub rest : RawConfig

unfoldable pub read_first : RawConfig → Read
read_first config =
    let (ignored, config1) = drop_ignored ("version" ∷ "channel" ∷ []) config in
    let (texts, config2) = read_texts config1 in
    let (labels, label_warnings, config3) = defaulting project_labels_key config2 in
    let (annotations, annotation_warnings, config4) = defaulting project_annotations_key config3 in
    let (image, config5) = pop_text image_key config4 in
    record {
      texts = texts;
      project_labels = labels;
      project_annotations = annotations;
      image = image;
      warnings = ignored ++ (label_warnings ++ annotation_warnings);
      rest = config5;
    }

-- What is read after it.
pub record Settings : Type 0 where
  pub dispatch_enabled : Bool
  pub skip_tls_warning : Bool
  pub dispatch_errors : List ConfigError
  pub replicas : ℤ
  pub skip_migrations : Bool
  pub extra_pod_labels : Map String
  pub extra_pod_annotations : Map String
  pub extra_service_account_annotations : Map String
  pub pdb : PdbConfig
  pub errors : List ConfigError
  pub warnings : List ConfigWarning
  pub rest : RawConfig

unfoldable pub read_settings : (Map Scalar → String) → String → RawConfig → Settings
read_settings show_object engine config =
    let (dispatch, dispatch_errors, config1) = checked dispatch_enabled_key config in
    let (skip_tls, skip_tls_errors, config2) = checked skip_tls_warning_key config1 in
    let (replicas, replica_errors, config3) = read_replicas show_object engine config2 in
    let (skip_migrations, skip_errors, config4) = checked skip_migrations_key config3 in
    let (labels, label_errors, label_warnings, config5) =
      checked_set "pod" "label" extra_pod_labels_key config4 in
    let (annotations, annotation_errors, annotation_warnings, config6) =
      checked_set "pod" "annotation" extra_pod_annotations_key config5 in
    let (account, account_errors, account_warnings, config7) =
      checked_set "service account" "annotation" extra_service_account_annotations_key config6 in
    let (pdb, pdb_errors, pdb_warnings, config8) = read_pdb config7 in
    record {
      dispatch_enabled = if engine == "memory" then false else dispatch;
      skip_tls_warning = skip_tls;
      dispatch_errors = dispatch_errors ++ skip_tls_errors;
      replicas = replicas;
      skip_migrations = skip_migrations;
      extra_pod_labels = labels;
      extra_pod_annotations = annotations;
      extra_service_account_annotations = account;
      pdb = pdb;
      errors =
          replica_errors
          ++ (skip_errors
              ++ (label_errors ++ (annotation_errors ++ (account_errors ++ pdb_errors))));
      warnings = label_warnings ++ (annotation_warnings ++ (account_warnings ++ pdb_warnings));
      rest = config8;
    }
