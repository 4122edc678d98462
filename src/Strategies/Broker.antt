-- ===== src/Strategies/Broker.antt =====
-- What the strategies share: reading the columns of the dataframe.
use ninjabot.Prelude.{String, List, []}
use ninjabot.Prelude.Map.{lookup_or}
use ninjabot.Strategy.Controller.{Dataframe}

-- `df.Metadata[key]`, which is empty for a missing key.
unfoldable pub indicator : {V : Type 0} → String → Dataframe V → List V
unfolding lookup_or
indicator key df = lookup_or [] key df.metadata
