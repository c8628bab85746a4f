-- ===== src/Provider/Server.antt =====
-- What a handler of src/provider.c works on: the provider, the world of its backends, and the calls
-- that it makes of Margo on its RPC handle.
use soma_c.Prelude.{none, some, List, [], ◌∷◌, ◌++◌}
use soma_c.Prelude.State.{M, modify}
use soma_c.Types.{CreateCollectorOut, CloseCollectorOut, ListCollectorsOut, SumOut}
use soma_c.Provider.State.{Provider}

-- The `out` of margo_respond.
pub data Response : Type 0 where
  create_out : CreateCollectorOut → Response
  close_out : CloseCollectorOut → Response
  list_out : ListCollectorsOut → Response
  sum_out : SumOut → Response

-- margo_respond, margo_free_input and margo_destroy.
pub data HandleCall : Type 0 where
  respond : Response → HandleCall
  free_input : HandleCall
  destroy : HandleCall

pub record Server (W T : Type 0) : Type 0 where
  pub provider : Provider W T
  pub world : W
  pub calls : List HandleCall

module _ {W T : Type 0} where
  -- A call of a backend's function: it works on the backends' world.
  abbrev pub in_world : {A : Type 0} → M W A → M (Server W T) A
  in_world m s = elim (m s.world) [ none ↦ none | some (a, w) ↦ some (a, record s { world = w }) ]

  abbrev pub call : HandleCall → M (Server W T) (Unit {0})
  call c = modify λ s. record s { calls = s.calls ++ c ∷ [] }

  abbrev pub set_provider : Provider W T → M (Server W T) (Unit {0})
  set_provider p = modify λ s. record s { provider = p }
