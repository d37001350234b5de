-- ===== src/Server/KkmOp/Performing.antt =====
-- The operations by the names of the table, as the handler calls them.
pub mod Follows
pub mod Requests
mod Tests
use kkm_https_adapter.Base.{ℕ, Bytes, Result}
use kkm_https_adapter.Http.JsonValue.{Json}
use kkm_https_adapter.Server.KkmOp.{Payload, Ended, Performer}
use kkm_https_adapter.Server.KkmOp.Table as Table
use kkm_https_adapter.Server.KkmOp.World.{World, Outside}
use kkm_https_adapter.Server.KkmOp.Learn.{learn}
use kkm_https_adapter.Server.KkmOp.Operations

unfoldable pub perform :
    {D : Type 0} → Outside D → Table.Operation → Payload → World D → Ended Payload (World D)
unfolding learn Operations.base_status
perform o Table.learn p w = learn o p w
perform o Table.base_status p w = Operations.base_status o p w
perform o Table.status p w = Operations.status o p w
perform o Table.full_status p w = Operations.full_status o p w
perform o Table.reset_registry p w = Operations.reset_registry o p w
perform o Table.print_demo p w = Operations.print_demo o p w
perform o Table.print_non_fiscal_document p w = Operations.print_non_fiscal_document o p w
perform o Table.print_info p w = Operations.print_info o p w
perform o Table.print_fn_registrations p w = Operations.print_fn_registrations o p w
perform o Table.print_ofd_exchange_status p w = Operations.print_ofd_exchange_status o p w
perform o Table.print_ofd_test p w = Operations.print_ofd_test o p w
perform o Table.print_close_shift_reports p w = Operations.print_close_shift_reports o p w
perform o Table.print_last_document p w = Operations.print_last_document o p w
perform o Table.cash_stat p w = Operations.cash_stat o p w
perform o Table.cash_in p w = Operations.cash_in o p w
perform o Table.cash_out p w = Operations.cash_out o p w
perform o Table.sell p w = Operations.sell o p w
perform o Table.sell_return p w = Operations.sell_return o p w
perform o Table.report_x p w = Operations.report_x o p w
perform o Table.close_shift p w = Operations.close_shift o p w
perform o Table.reset_state p w = Operations.reset_state o p w

-- The handler's interface, with the clock of the world and the parser of the JSON library.
unfoldable pub performer :
    {D : Type 0} → (World D → ℕ) → (Bytes → Result Bytes Json) → Outside D → Performer (World D)
unfolding perform
performer now parse o = record { now = now; parse = parse; perform = perform o }
