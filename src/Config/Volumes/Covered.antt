-- ===== src/Config/Volumes/Covered.antt =====
-- Every mount of a pod has a volume (pkg/config/config.go).
use spicedb_operator.Base.{
  All, Bool, In, In-append_left, In-append_right, List, [], at_head, false, refl, true, ◌&&◌, ◌++◌,
  ◌∷◌, ◌≡◌,
}
use spicedb_operator.Config.Types.{Config}
use spicedb_operator.Config.Volumes.{
  Volume, VolumeMount, deployment_volume_mounts, deployment_volumes, downward_api, is_set,
  job_volume_mounts, job_volumes, only, volume,
}

-- Each mount names a volume of the pod.
abbrev pub Covered : List VolumeMount → List Volume → Type 0
Covered mounts volumes = All (λ m. (v : Volume) × In v volumes × (v.name ≡ m.name)) mounts

Covered-more :
    (mounts : List VolumeMount) (before volumes : List Volume)
    → Covered mounts volumes
    → Covered mounts (before ++ volumes)
Covered-more [] before volumes h = tt
Covered-more (m ∷ mounts) before volumes ((v, i, e), h) =
    ((v, In-append_right v before volumes i, e), Covered-more mounts before volumes h)

Covered-append :
    (mounts others : List VolumeMount) (volumes more : List Volume)
    → Covered mounts volumes
    → Covered others more
    → Covered (mounts ++ others) (volumes ++ more)
Covered-append [] others volumes more h g = Covered-more others volumes more g
Covered-append (m ∷ mounts) others volumes more ((v, i, e), h) g =
    ((v, In-append_left v volumes more i, e), Covered-append mounts others volumes more h g)

Covered-only :
    (b : Bool) (m : VolumeMount) (v : Volume) → v.name ≡ m.name → Covered (only b m) (only b v)
Covered-only true m v e = ((v, at_head refl, e), tt)
Covered-only false m v e = tt

job_volume_mounts-Covered : (c : Config) → Covered (job_volume_mounts c) (job_volumes c)
unfolding job_volume_mounts job_volumes
job_volume_mounts-Covered c =
    Covered-more (job_volume_mounts c) (volume "podname" (downward_api "name" "metadata.name") ∷ [])
      _
      (Covered-append _ _ _ _
        (Covered-only (is_set c.migration_config.datastore_tls_secret_name) _ _ refl)
        (Covered-append _ _ _ _
          (Covered-only (is_set c.migration_config.spanner_creds_secret_ref) _ _ refl)
          (Covered-append _ _ _ _ (Covered-only c.spice_config.project_labels _ _ refl)
            (Covered-only c.spice_config.project_annotations _ _ refl))))

-- Every mount in a pod of the migration job or of the deployment has a volume of its name there.
pub volume_mounts-Covered :
    (c : Config)
    → Covered (job_volume_mounts c) (job_volumes c)
      × Covered (deployment_volume_mounts c) (deployment_volumes c)
unfolding deployment_volume_mounts deployment_volumes
volume_mounts-Covered c =
    let s = c.spice_config in
    (
      job_volume_mounts-Covered c,
      Covered-append _ _ _ _ (job_volume_mounts-Covered c) (
          Covered-append _ _ _ _ (Covered-only (is_set s.tls_secret_name) _ _ refl) (
            Covered-append _ _ _ _
              (Covered-only (is_set s.dispatch_upstream_ca_secret_name && s.dispatch_enabled) _ _
                refl)
              (Covered-only (is_set s.telemetry_tls_ca_secret_name) _ _ refl))),
    )
