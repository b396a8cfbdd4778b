-- ===== src/Tests/Answers.antt =====
-- The schemas, the validators and the budget of calls at concrete inputs.
use transaction_service.Shared.{pos, some, [], ◌∷◌, false, ◌≡◌, refl}
use transaction_service.Driver.Memory.{memory, lost, answered}
use transaction_service.Driver.Release.{trace, IsReleased}
use transaction_service.Transaction.Service.Release.{trace-transfer}
use transaction_service.Transaction.Types.{
  Transaction, TransactionData, transfer as transfer_type, success,
}
use transaction_service.Transaction.Schema.{new_transaction}
use transaction_service.Transaction.Dto.{TransferResponse, credit, HistoryItem, HistoryResponse}
use transaction_service.Transaction.Service.{transfer_data, transfer}
use transaction_service.Transaction.Resolver.{StatisticRow}
use transaction_service.Graphql.{refused_fields}
use transaction_service.Graphql.Inputs.{
  transfer_input_fields, transaction_history_input_fields, nest_transfer_input_fields,
  nest_transaction_history_input_fields,
}
use transaction_service.Graphql.Outputs.{
  transfer_response_fields, transaction_history_response_fields, transaction_item_fields,
  transaction_fields, account_fields, transaction_stats_fields,
}
use transaction_service.Graphql.Answers.{
  account_object, transaction_object, transfer_response_object, history_item_object,
  history_response_object, statistic_row_object, refused_fields-answers,
}
use transaction_service.Tests.Data.{first_account, cfg, payment, world}

abbrev paid : Transaction
paid = new_transaction (λ s. s) (transfer_data "tx-1" payment (pos 20000))

abbrev row : StatisticRow
row = record {
  type = transfer_type;
  count = 2;
  total_amount = pos 30000;
  avg_amount = (pos 30000, 2);
}

abbrev item : HistoryItem
item = record { id = "tx-1"; type = credit; amount = pos 20000; status = success; timestamp = 7 }

abbrev response : TransferResponse
response = record {
  transaction_id = "tx-1";
  status = "SUCCESS";
  from_account = "ACC-1001";
  amount = pos 20000;
  new_balance = pos 480000;
  timestamp = 7;
}

abbrev history : HistoryResponse
history = record { account_no = "ACC-1001"; total_count = 1; transactions = item ∷ [] }

refused_fields-answers_example :
    (refused_fields account_fields (account_object first_account 1 2) ≡ [])
    × (refused_fields transaction_fields (transaction_object paid 2) ≡ [])
    × (refused_fields transaction_stats_fields (statistic_row_object row) ≡ [])
    × (refused_fields transaction_item_fields (history_item_object item) ≡ [])
    × (refused_fields transfer_response_fields (transfer_response_object response)
        ≡ "to_account" ∷ [])
    × (refused_fields transaction_history_response_fields (history_response_object history)
        ≡ "limit" ∷ "offset" ∷ [])
refused_fields-answers_example =
    refused_fields-answers first_account paid row item response history 1 2

abbrev described : TransactionData
described = record (transfer_data "tx-1" payment (pos 20000)) {
  description = some "rent";
  reference_no = some "R-1";
}

trace-transfer_example :
    IsReleased false (trace memory (transfer cfg payment) (world (answered ∷ answered ∷ lost ∷ [])))
trace-transfer_example = trace-transfer memory cfg payment (world (answered ∷ answered ∷ lost ∷ []))

-- The inputs that are declared twice are the same.
same_transfer_input : nest_transfer_input_fields ≡ transfer_input_fields
same_transfer_input = refl

same_history_input : nest_transaction_history_input_fields ≡ transaction_history_input_fields
same_history_input = refl
