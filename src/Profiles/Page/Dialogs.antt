-- ===== src/Profiles/Page/Dialogs.antt =====
-- The dialogs of the page: the one that confirms a deletion, and the one with the version history.
use pg_swarm.Base.{ℕ, String, false, none, some, List, if◌then◌else◌, ltb, eqb, map}
use pg_swarm.Js.{Value, Object, get, truthy}
use pg_swarm.Js.Text.{◌⧺◌, show}
use pg_swarm.Js.Props.{entries}
use pg_swarm.View.{View, nothing, text, ◌&◌, el, press, button, when, child}
use pg_swarm.Profiles.History.{version_history_list}
use pg_swarm.Profiles.Page.{Page, Act, update, confirm_delete, cluster_count_for_profile}
use pg_swarm.Profiles.Page.Cards.{Around, profile_list, versions_of}

unfoldable pub close_delete : Page → Page
close_delete page = record page { cascade_target = none }

unfoldable pub close_history : Page → Page
close_history page = record page { history_target = none }

-- the body of the dialog for a profile with that many clusters
unfoldable pub delete_body : ℕ → Object → View Act
delete_body attached target =
    if ltb 0 attached
    then el "p" (
        text "Cannot delete "
        & el "strong" (child (get target "name"))
        & text " because it is in use.")
      & el "p.muted" (
          text (
            show attached
            ⧺ (" cluster"
                ⧺ ((if eqb attached 1 then " is" else "s are")
                    ⧺ " currently using this profile. Remove or reassign all clusters before deleting."))))
    else el "p" (
        text "Are you sure you want to delete "
        & el "strong" (child (get target "name"))
        & text "?")
      & when (truthy (get target "description")) (el "p.muted" (child (get target "description")))
      & el "p.muted" (
          text
            "This action cannot be undone. The profile and all its version history will be permanently removed.")

-- The dialog; a click in its window goes no further than the window.
unfoldable pub delete_dialog : List Object → Object → View Act
unfolding close_delete cluster_count_for_profile
delete_dialog clusters target =
    let attached = cluster_count_for_profile clusters (get target "id") in
    press (update close_delete) (
      el "div.confirm-overlay" (
        el "div.confirm-modal" (
          el "div.confirm-header" (
            el "h3" (text "Delete Profile")
            & button "modal-close" false (update close_delete) nothing)
          & el "div.confirm-body" (delete_body attached target)
          & el "div.confirm-footer" (
              button "btn btn-sm" false (update close_delete)
                (text (if ltb 0 attached then "Close" else "Cancel"))
              & when (eqb attached 0)
                  (button "btn btn-sm btn-danger" false confirm_delete (text "Delete Profile"))))))

-- the dialog with the history
unfoldable pub history_dialog : (Value → String) → Page → Object → View Act
unfolding close_history version_history_list entries
history_dialog locale_time page target = press (update close_history) (
    el "div.confirm-overlay" (
      el "div.confirm-modal" (
        el "div.confirm-header" (
          el "h3" (text "Version History: " & child (get target "name"))
          & button "modal-close" false (update close_history) nothing)
        & el "div.confirm-body"
            (version_history_list locale_time (map entries (versions_of page (get target "id"))))
        & el "div.confirm-footer"
            (button "btn btn-sm" false (update close_history) (text "Close")))))

-- the page while no profile is edited
unfoldable pub profiles_page : (Value → String) → Around → Page → View Act
unfolding profile_list delete_dialog history_dialog
profiles_page locale_time a page =
    profile_list a page
    & elim page.cascade_target [ none ↦ nothing | some t ↦ delete_dialog a.clusters t ]
    & elim page.history_target [ none ↦ nothing | some t ↦ history_dialog locale_time page t ]
