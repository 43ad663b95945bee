-- ===== src/SqlApi/Laws.antt =====
-- What a call of SqlApi does to the tables, from an object with no result pending.
use single_terminal_login_sy.Base.{
  Bool, map, ◌≡◌, refl, sym, ◌∙◌, ap, ◌⊎◌, inl, inr, true, false, List, [], ◌∷◌, ◌++◌, append_assoc,
  append-nil, length, arith,
}
use single_terminal_login_sy.Base.Text.{Text}
use single_terminal_login_sy.Exec.{done}
use single_terminal_login_sy.Mysql.{Mysql, ResultSet}
use single_terminal_login_sy.Mysql.Tables.{Tables}
use single_terminal_login_sy.Mysql.Laws.{MysqlLaws, Selects, Changes}
use single_terminal_login_sy.SqlApi.{
  SqlApi, MysqlResult, fetched, Row, freed, push_rows, select, get_result, insert, update,
  clean_result,
}

push_rows_lem : (vec rows : List Row) → push_rows vec rows ≡ vec ++ rows
unfolding push_rows
push_rows_lem vec [] = sym (append-nil vec)
push_rows_lem vec (row ∷ rest) =
    push_rows_lem (vec ++ row ∷ []) rest ∙ append_assoc vec (row ∷ []) rest

module _ {m : Mysql} (laws : MysqlLaws m) where
  open laws use {tables}

  -- No fetched row is pending, and the server holds the tables `t`.
  pub record Idle (s : SqlApi m) (t : Tables) : Type 0 where
    pub no_rows : s.mysql_result.mysql_row_vec ≡ []
    pub holds : tables s.mysql ≡ t

  -- The rows of `res` are pending.
  pub record Pending (s : SqlApi m) (t : Tables) (res : ResultSet) : Type 0 where
    pub survives : Bool
    pub rows : s.mysql_result.mysql_row_vec ≡ map (freed survives) res.rows
    pub counted : s.mysql_result.rows_count ≡ length res.rows
    pub fields : s.mysql_result.fields_count ≡ res.fields
    pub holds : tables s.mysql ≡ t

  -- `select` fails, or leaves the rows that the statement means; the tables stay.
  pub select_lem :
      (sql : Text) (f : Tables → ResultSet) (s : SqlApi m) {t : Tables}
      → Selects m tables sql f
      → Idle s t
      → (s' : SqlApi m) × (((select sql s ≡ (done false, s')) × Idle s' t)
          ⊎ ((select sql s ≡ (done true, s')) × Pending s' t (f t)))
  unfolding select
  select_lem sql f s {t} means idle = elim (means s.mysql).1 [
    | inl broken ↦ (
      record s { mysql = (m.query sql s.mysql).1 },
      inl ((rw broken), record { no_rows = idle.no_rows; holds = (means s.mysql).0 ∙ idle.holds }),
    )
    | inr (inl empty) ↦ (
      record s { mysql = (m.query sql s.mysql).1 },
      inl (
        ground (arith, empty),
        record { no_rows = idle.no_rows; holds = (means s.mysql).0 ∙ idle.holds },
      ),
    )
    | inr (inr (ran, found)) ↦ (
      record s {
        mysql = (m.query sql s.mysql).1;
        mysql_result =
            fetched (m.survives (m.query sql s.mysql).1) s.mysql_result (f (tables s.mysql));
      },
      inr (
        (rw (ran, found)),
        record {
          survives = m.survives (m.query sql s.mysql).1;
          rows =
              push_rows_lem s.mysql_result.mysql_row_vec
                (map (freed (m.survives (m.query sql s.mysql).1)) (f (tables s.mysql)).rows)
              ∙ (rw (idle.no_rows, idle.holds));
          counted = ap (λ u. length (f u).rows) idle.holds;
          fields = ap (λ u. (f u).fields) idle.holds;
          holds = (means s.mysql).0 ∙ idle.holds;
        },
      ),
    )
  ]

  pub insert_lem :
      (sql : Text) (f : Tables → Tables) (s : SqlApi m) {t : Tables}
      → Changes m tables sql f
      → Idle s t
      → (s' : SqlApi m) × (((insert sql s ≡ (done true, s')) × Idle s' (f t))
          ⊎ ((insert sql s ≡ (done false, s')) × Idle s' t))
  unfolding insert
  insert_lem sql f s {t} means idle = elim (means s.mysql) [
    | inl (ran, now) ↦ (
      record s { mysql = (m.query sql s.mysql).1 },
      inl ((rw ran), record { no_rows = idle.no_rows; holds = now ∙ ap f idle.holds }),
    )
    | inr (failed, kept) ↦ (
      record s { mysql = (m.query sql s.mysql).1 },
      inr ((rw failed), record { no_rows = idle.no_rows; holds = kept ∙ idle.holds }),
    )
  ]

  pub update_lem :
      (sql : Text) (f : Tables → Tables) (s : SqlApi m) {t : Tables}
      → Changes m tables sql f
      → Idle s t
      → (s' : SqlApi m) × (((update sql s ≡ (done true, s')) × Idle s' (f t))
          ⊎ ((update sql s ≡ (done false, s')) × Idle s' t))
  unfolding update insert
  update_lem sql f s means idle = insert_lem sql f s means idle

  -- `getResult` hands the rows over and leaves none pending.
  pub get_result_lem :
      (s : SqlApi m) {t : Tables} {res : ResultSet}
      → Pending s t res
      → (s' : SqlApi m) × (r : MysqlResult) × (get_result s ≡ (done r, s'))
        × ((b : Bool) × (r.mysql_row_vec ≡ map (freed b) res.rows))
        × (r.rows_count ≡ length res.rows)
        × (r.fields_count ≡ res.fields)
        × Idle s' t
  unfolding get_result
  get_result_lem s p = (
    record s { mysql_result = clean_result },
    s.mysql_result,
    refl,
    (p.survives, p.rows),
    p.counted,
    p.fields,
    record { no_rows = refl; holds = p.holds },
  )
