-- ===== src/Orchestrator/Rendered.antt =====
-- The configuration that `deploy_config` of src/rollout/orchestrator.py writes.
use litellm_control_plane.Common.{
  String, Bool, true, false, some, List, ◌≡◌, refl, sym, ◌∙◌, ap, inl, inr, if◌then◌else◌,
}
use litellm_control_plane.World.{
  World, returned, runtime_error, library_error, pure, raise, or_else, ◌>>=◌, except_any,
}
use litellm_control_plane.World.Runs.{
  bind-Steps, bind_to, or_raise_run, raised-returned, returned_injective, handled,
}
use litellm_control_plane.Orchestrator.{Site}
use litellm_control_plane.Config.Generator.{ModelEntry, generate_config}
use litellm_control_plane.Config.Generator.Served.{generate_config-Serves}
use litellm_control_plane.Orchestrator.Deploy.{render_config}

-- The content is the text of the configuration that the generator makes in the world.
pub record Rendered (site : Site) (node_id content : String) (w : World) : Type 0 where
  pub entries : List ModelEntry
  pub generated : generate_config site.secrets node_id w ≡ (returned entries, w)
  pub dumped : site.safe_dump entries ≡ some content

-- A text that is not refused as YAML.
accepted :
    (b : Bool) (text content : String) (w : World)
    → let m = if b then pure text else raise (runtime_error "Config validation failed") in
      (m w).0 ≡ returned content → (text ≡ content) × ((m w).1 ≡ w)
unfolding pure raise
accepted true text content w h = (returned_injective h, refl)
accepted false text content w h = raised-returned h

module _ (site : Site) (node_id : String) where
  pub render_config-Rendered :
      (content : String) (w : World)
      → let m = render_config site node_id in
        (m w).0 ≡ returned content → Rendered site node_id content w × ((m w).1 ≡ w)
  unfolding render_config raise
  render_config-Rendered content w h =
      let s =
        bind-Steps
          (except_any
            (generate_config site.secrets node_id >>= λ config_dict.
              or_else (site.safe_dump config_dict) (raise library_error) pure)
            λ e. raise (runtime_error "Config generation failed"))
          _ w content h in
      let (xs, run, serves) = generate_config-Serves site.secrets w node_id in
      elim (handled
        (generate_config site.secrets node_id >>= λ config_dict.
          or_else (site.safe_dump config_dict) (raise library_error) pure)
        (λ e. raise (runtime_error "Config generation failed")) w) [
          | inl (text, returns, whole) ↦
              let body =
                bind_to (generate_config site.secrets node_id)
                  (λ config_dict. or_else (site.safe_dump config_dict) (raise library_error) pure)
                  run in
              let (dumped, same) =
                or_raise_run (site.safe_dump xs) library_error w text
                  (ap (λ m. m.0) (sym body) ∙ returns) in
              let is_text : text ≡ s.value =
                returned_injective (ap (λ m. m.0) (sym whole) ∙ s.first_part) in
              let (same_text, kept) = accepted (site.is_yaml s.value) s.value content _ s.rest in
              (
                record {
                  entries = xs;
                  generated = run;
                  dumped = dumped ∙ ap some (is_text ∙ same_text);
                },
                s.world ∙ kept ∙ ap (λ m. m.1) (whole) ∙ ap (λ m. m.1) (body ∙ same),
              )
          | inr (e, raises, whole) ↦ raised-returned (ap (λ m. m.0) (sym whole) ∙ s.first_part)
        ]
