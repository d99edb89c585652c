-- ===== src/Tests/Samples.antt =====
-- Columns, plans and texts of one small star query.
use db_query_optimizer.Common.{false, Option, none, []}
use db_query_optimizer.Common.Text.{Text, bytes}
use db_query_optimizer.Base.{Table, TableColumn, type_integer}
use db_query_optimizer.Ir.{IrData, NodeData, empty}

abbrev pub table_of : Text → Option Text → Table
table_of name alias = record { name = name; alias = alias; is_virtual = false; schema = [] }

abbrev pub column_of : Table → Text → TableColumn
column_of table name = record {
  table = table;
  column_name = name;
  column_type = type_integer;
  alias = none;
}

abbrev pub lineorder : Table
lineorder = table_of (bytes "lineorder") none

abbrev pub customer : Table
customer = table_of (bytes "customer") none

abbrev pub lo_custkey : TableColumn
lo_custkey = column_of lineorder (bytes "lo_custkey")

abbrev pub lo_revenue : TableColumn
lo_revenue = column_of lineorder (bytes "lo_revenue")

abbrev pub revenue : TableColumn
revenue = column_of lineorder (bytes "revenue")

abbrev pub c_custkey : TableColumn
c_custkey = column_of customer (bytes "c_custkey")

abbrev pub c_nation : TableColumn
c_nation = column_of customer (bytes "c_nation")

abbrev pub plain_node : IrData → NodeData
plain_node d = record { raw_json = none; abstract_data = empty; ir_data = d }
