-- ===== src/Sql/Execute/Batch/Tests.antt =====
-- UpdateBatch of socket/mysql/sqler.go on two rows, and the fields of a struct.
use rocommon.Prelude.{[], ◌∷◌, none, some, ◌≡◌, refl}
use rocommon.Text.{codes, join, split, cons_head, in_array, ◌=s◌, pos, itoa, digits_from}
use rocommon.Sql.{one, int, new_sqler}
use rocommon.Sql.Literal.{parse_arg, parse_str}
use rocommon.Sql.Execute.{item}
use rocommon.Sql.Execute.Batch.{
  update_batch, with_inc, batch_text, batch_rows, set_cases, row_cases, key_condition, add_case,
  struct2map, put_entry, field_name,
}

-- Two rows under one key column.
update_batch_test :
    (update_batch
      (λ cases. cases)
      (record (new_sqler none) { table = codes "users" })
      (((codes "id", one (int (pos 1))) ∷ (codes "n", one (int (pos 5))) ∷ [])
        ∷ ((codes "id", one (int (pos 2))) ∷ (codes "n", one (int (pos 6))) ∷ [])
        ∷ [])
      (codes "id" ∷ [])
      none).1
    ≡ some (codes "update users set n=case when id=1 then 5 when id=2 then 6 end where id in (1,2)")
unfolding update_batch with_inc batch_text batch_rows set_cases row_cases key_condition add_case
    item new_sqler parse_arg parse_str in_array ◌=s◌ join itoa digits_from
update_batch_test = refl

struct2map_test :
    struct2map
      (record {
        name = codes "Id";
        sqler_tag = [];
        db_tag = codes "id,pk";
        value = one (int (pos 1));
      }
        ∷ record {
          name = codes "Tmp";
          sqler_tag = codes "-";
          db_tag = [];
          value = one (int (pos 2));
        }
        ∷ record { name = codes "Name"; sqler_tag = []; db_tag = []; value = one (int (pos 3)) }
        ∷ [])
      []
    ≡ (codes "id", one (int (pos 1))) ∷ (codes "Name", one (int (pos 3))) ∷ []
unfolding struct2map put_entry field_name split cons_head ◌=s◌
struct2map_test = refl
