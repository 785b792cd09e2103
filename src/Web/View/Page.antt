-- ===== src/Web/View/Page.antt =====
-- What the components `Dashboard` and `App` of internal/server/web/src/App.tsx render.
use telemux.Web.View.{
  mountable, mounted, nothing, presses, View, text, shown, tag, control, views, login_view, ◌>>=◌,
  card, create_controls, table, synced_at, diff_text, role_badge, user_row, nodes_card, table_body,
}
use telemux.Base.{String, [], ◌∷◌, Result, ok, string_eq}
use telemux.Web.Value.{Value, str, get_opt, or_default}
use telemux.Web.Dashboard.{Dashboard, is_master}
use telemux.Web.App.{
  Screen, blank, login_form, panel, clicked_refresh, clicked_logout, clicked_sync,
}

module _ (to_text date_text time_text : Value → String) where
  -- What `Dashboard` returns, with the parts that can throw.
  unfoldable pub dashboard_page : Dashboard → String → View → String → View → View → View
  unfolding card create_controls table
  dashboard_page d at badge diff users nodes = views (
      tag "header" (
        views (
          tag "h1" (text "telemux")
          ∷ tag "span" (shown d.version)
          ∷ badge
          ∷ control (presses "выйти" clicked_logout)
          ∷ []))
      ∷ tag "main" (
          views (
            card to_text date_text time_text "Роль ноды"
              (shown (or_default (get_opt d.role "role") (str "…")))
            ∷ card to_text date_text time_text "Юзеров" (shown d.total)
            ∷ card to_text date_text time_text "Последняя синхра" (text at)
            ∷ card to_text date_text time_text "Diff (C/P/D)" (text diff)
            ∷ control (presses "Синхронизировать" clicked_sync)
            ∷ control (presses "Обновить" clicked_refresh)
            ∷ tag "span" (text d.status)
            ∷ tag "div" (
                views (
                  views (text "Пользователи (" ∷ shown d.total ∷ text ")" ∷ [])
                  ∷ create_controls to_text date_text time_text (is_master d) d.new_name
                  ∷ table to_text date_text time_text
                      ("username" ∷ "срок" ∷ "conns" ∷ "вкл" ∷ "" ∷ []) users
                  ∷ []))
            ∷ nodes
            ∷ tag "p" (text "telemux — панель управления кластером telemt.")
            ∷ []))
      ∷ [])

  -- `Dashboard` on the page; an error is one that rendering throws.
  unfoldable pub dashboard_view : Dashboard → Result String View
  unfolding mountable synced_at diff_text role_badge user_row nodes_card table_body
  dashboard_view d = do
    at ← synced_at to_text date_text time_text d.sync
    badge ← role_badge to_text date_text time_text d.role
    diff ← diff_text to_text date_text time_text d.sync
    users ←
        table_body to_text date_text time_text "пусто"
          (user_row to_text date_text time_text (is_master d)) d.users
    nodes ← nodes_card to_text date_text time_text d.nodes
    mounted (dashboard_page d at badge diff users nodes)

  -- `App`
  unfoldable pub screen_view : Screen → Result String View
  screen_view blank = ok nothing
  screen_view (login_form f) = ok (login_view f)
  screen_view (panel d) = dashboard_view d
