-- ===== src/Profiles/Form/Volumes.antt =====
-- The tabs `volumes` and `resources` of the form.
use pg_swarm.Base.{Bool, List, [], ◌∷◌, if◌then◌else◌}
use pg_swarm.Js.{Value, null, str, bool, Object, truthy}
use pg_swarm.Js.Props.{prop, put, put_in}
use pg_swarm.View.{View, text, ◌&◌, el, checkbox, when}
use pg_swarm.Profiles.Spec.{object}
use pg_swarm.Profiles.Form.{Form, Act, update, set_spec}
use pg_swarm.Profiles.Form.Inputs.{row, section_input, storage_input, storage_class_select}

-- the update by the checkbox of the WAL volume
unfoldable pub choose_wal : Bool → Value → Value
unfolding put
choose_wal checked s =
    put s "wal_storage"
      (if checked then object (("size", str "2Gi") ∷ ("storage_class", str "") ∷ []) else null)

-- The tab `volumes`.
unfoldable pub volumes_tab : List Object → Form → View Act
unfolding set_spec choose_wal storage_class_select prop put put_in
volumes_tab storage_tiers f =
    let spec = f.editing.spec in
    el "section.form-section" (
      el "div" (el "h4" (text "Volumes"))
      & el "div.volume-section" (
          el "div.volume-toggle" (
            el "h5" (text "Deletion Protection")
            & el "label.toggle" (
                checkbox (truthy (prop spec "deletion_protection"))
                  (λ c. update (set_spec λ s. put s "deletion_protection" (bool c)))
                & el "span" (text "Add finalizer to PVCs to prevent accidental deletion"))))
      & el "div.volume-section" (
          el "h5" (text "Data Volume")
          & el "div.form-grid" (
              row "Size" (section_input "storage" "size" spec)
              & row "Storage Tier" (storage_input "storage" spec storage_tiers)))
      & el "div.volume-section" (
          el "div.volume-toggle" (
            el "h5" (text "WAL Volume")
            & el "label.toggle" (
                checkbox (truthy (prop spec "wal_storage")) (λ c. update (set_spec (choose_wal c)))
                & el "span" (text "Separate WAL volume")))
          & when (truthy (prop spec "wal_storage")) (
              el "div.form-grid" (
                row "Size" (section_input "wal_storage" "size" spec)
                & row "Storage Tier" (storage_input "wal_storage" spec storage_tiers)))))

-- The tab `resources`.
unfoldable pub resources_tab : Form → View Act
unfolding set_spec prop put_in
resources_tab f =
    let spec = f.editing.spec in
    el "section.form-section" (
      el "h4" (text "Resource Configuration")
      & el "div.form-grid" (
          row "CPU Request" (section_input "resources" "cpu_request" spec)
          & row "CPU Limit" (section_input "resources" "cpu_limit" spec)
          & row "Memory Request" (section_input "resources" "memory_request" spec)
          & row "Memory Limit" (section_input "resources" "memory_limit" spec)))
