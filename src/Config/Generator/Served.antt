-- ===== src/Config/Generator/Served.antt =====
-- Which entries stand in a node's configuration.
use litellm_control_plane.Common.{
  String, Bool, true, false, Option, none, some, List, [], ◌∷◌, ◌≡◌, refl, sym, ap, ◌∙◌, not,
  Bool-cases, inl, inr, if◌then◌else◌, ◌↔◌, eq_iff,
}
use mathlib.Core.List.{Memᴰ}
use litellm_control_plane.Common.Text.{lower_text}
use litellm_control_plane.Table.{by}
use litellm_control_plane.Table.Members.{select_mem, select_from}
use litellm_control_plane.Models.{Endpoint}
use litellm_control_plane.World.{World, returned, ◌>>=◌}
use litellm_control_plane.Policy.{is_routable}
use litellm_control_plane.Config.Generator.{
  Row, Secrets, ModelEntry, entry_of, join_row, rows_of, row_excluded, entry_with, model_list,
  generate_config,
}
use litellm_control_plane.Config.Generator.Filter.{
  join_rows-from, join_rows-to, is_excluded-eq-not-is_routable,
}

module _ (secrets : Secrets) (w : World) where
  -- The entry is that of the row, which is not excluded and whose key is resolved.
  pub record Entered (x : ModelEntry) (r : Row) : Type 0 where
    pub open_to_traffic :
        is_routable r.endpoint.manual_override r.endpoint.status r.account.status ≡ true
    pub api_key : String
    pub resolved : secrets.resolve w r.account.secret_ref ≡ some api_key
    pub entry :
        x
        ≡ entry_of r api_key
            (secrets.api_base w r (lower_text r.provider.type) r.account.secret_ref)

  -- A row of the list for the entry.
  record Listed (rows : List Row) (x : ModelEntry) : Type 0 where
    row : Row
    member : Memᴰ row rows
    entered : Entered x row

  Listed-behind : (r : Row) (rows : List Row) (x : ModelEntry) → Listed rows x → Listed (r ∷ rows) x
  Listed-behind r rows x l = record {
    row = l.row;
    member = Memᴰ.tail l.member;
    entered = l.entered;
  }

  open_row :
      (r : Row)
      → row_excluded r ≡ false
      → is_routable r.endpoint.manual_override r.endpoint.status r.account.status ≡ true
  open_row r h =
      not-false (is_routable r.endpoint.manual_override r.endpoint.status r.account.status) (
        sym (
          is_excluded-eq-not-is_routable r.endpoint.manual_override r.endpoint.status
            r.account.status)
        ∙ h)
    where
      not-false : (b : Bool) → not b ≡ false → b ≡ true
      not-false true e = refl
      not-false false e = cc

  included :
      (r : Row)
      → is_routable r.endpoint.manual_override r.endpoint.status r.account.status ≡ true
      → row_excluded r ≡ false
  included r h = is_excluded-eq-not-is_routable _ _ _ ∙ ap not h

  from_entry :
      (r : Row) (rows : List Row) (x : ModelEntry) (o : Option String)
      → secrets.resolve w r.account.secret_ref ≡ o
      → row_excluded r ≡ false
      → Memᴰ x (entry_with secrets w r o (model_list secrets w rows))
      → (Memᴰ x (model_list secrets w rows) → Listed rows x)
      → Listed (r ∷ rows) x
  from_entry r rows x none h free m rest = Listed-behind r rows x (rest m)
  from_entry r rows x (some api_key) h free (Memᴰ.head e) rest = record {
    row = r;
    member = Memᴰ.head refl;
    entered = record {
      open_to_traffic = open_row r free;
      api_key = api_key;
      resolved = h;
      entry = e;
    };
  }
  from_entry r rows x (some api_key) h free (Memᴰ.tail m) rest = Listed-behind r rows x (rest m)

  from_row :
      (r : Row) (rows : List Row) (x : ModelEntry) (b : Bool)
      → row_excluded r ≡ b
      → Memᴰ x (
          if b
          then model_list secrets w rows
          else entry_with secrets w r
              (secrets.resolve w r.account.secret_ref)
              (model_list secrets w rows))
      → (Memᴰ x (model_list secrets w rows) → Listed rows x)
      → Listed (r ∷ rows) x
  from_row r rows x true h m rest = Listed-behind r rows x (rest m)
  from_row r rows x false h m rest =
      from_entry r rows x (secrets.resolve w r.account.secret_ref) refl h m rest

  model_list-from :
      (rows : List Row) (x : ModelEntry) → Memᴰ x (model_list secrets w rows) → Listed rows x
  unfolding model_list
  model_list-from [] x m = elim m [ ]
  model_list-from (r ∷ rows) x m =
      from_row r rows x (row_excluded r) refl m (model_list-from rows x)

  skip_entry :
      (r : Row) (rows : List Row) (x : ModelEntry) (o : Option String)
      → Memᴰ x (model_list secrets w rows)
      → Memᴰ x (entry_with secrets w r o (model_list secrets w rows))
  skip_entry r rows x none m = m
  skip_entry r rows x (some k) m = Memᴰ.tail m

  model_list-to :
      (rows : List Row) (x : ModelEntry) (r : Row)
      → Memᴰ r rows
      → Entered x r
      → Memᴰ x (model_list secrets w rows)
  unfolding model_list
  model_list-to [] x r m e = elim m [ ]
  model_list-to (s ∷ rows) x r (Memᴰ.head same) e =
      let free : row_excluded s ≡ false = rw (← same) (included r e.open_to_traffic) in
      let opened : secrets.resolve w s.account.secret_ref ≡ some e.api_key =
        rw (← same) e.resolved in
      rw free (rw opened (Memᴰ.head (rw (← same) e.entry)))
  model_list-to (s ∷ rows) x r (Memᴰ.tail m) e = elim (Bool-cases (row_excluded s)) [
    | inl out ↦ rw out (model_list-to rows x r m e)
    | inr free ↦ rw free (skip_entry s rows x _ (model_list-to rows x r m e))
  ]

  -- What puts an entry into the configuration of the node.
  pub record Serves (node_id : String) (x : ModelEntry) : Type 0 where
    pub endpoint : Endpoint
    pub member : Memᴰ endpoint w.endpoints
    pub on_node : endpoint.node_id ≡ node_id
    pub row : Row
    pub joined : join_row w.db endpoint ≡ some row
    pub entered : Entered x row

  pub generate_config-Serves :
      (node_id : String)
      → (xs : List ModelEntry) × (generate_config secrets node_id w ≡ (returned xs, w))
        × ((x : ModelEntry) → Memᴰ x xs ↔ Serves node_id x)
  unfolding generate_config ◌>>=◌ rows_of by
  generate_config-Serves node_id = (
    _,
    refl,
    λ x. (
      λ m.
          let l = model_list-from (rows_of w.db node_id) x m in
          let j = join_rows-from w.db _ l.row l.member in
          let s = select_from (by (λ e. e.node_id) node_id) j.endpoint w.endpoints j.member in
          record {
            endpoint = j.endpoint;
            member = s.member;
            on_node = (eq_iff j.endpoint.node_id node_id).0 s.passes;
            row = l.row;
            joined = j.joined;
            entered = l.entered;
          },
      λ s.
          model_list-to (rows_of w.db node_id) x s.row
            (join_rows-to w.db _ s.row s.endpoint
              (select_mem (by (λ e. e.node_id) node_id) s.endpoint w.endpoints s.member
                ((eq_iff s.endpoint.node_id node_id).1 s.on_node))
              s.joined)
            s.entered,
    ),
  )
