-- ===== src/Worker/Channels.antt =====
-- worker/swap.go: the channels of swap tasks, one for each account that pays, by direction.
use cross_chain_bridge.Common.{
  ℕ, ◌==◌, Bool, true, false, Option, none, some, List, [], ◌∷◌, ◌++◌, Text, lit, to_lower, text_eq,
  leb, length, if◌then◌else◌,
}
use cross_chain_bridge.Common.Exec.{ok, err, fail}
use cross_chain_bridge.Tokens.Errors.{Err, sentinel, message, swap_channel_is_full}
use cross_chain_bridge.Tokens.Types.{
  BuildTxArgs, TokenPairConfig, no_swap_type, swapin_type, swapout_type, swap_type_text,
}
use cross_chain_bridge.Platform.{Platform, World, M}

abbrev pub swap_chan_size : ℕ
swap_chan_size = 100

abbrev pub Channels : Type 0
Channels = List (Text × List BuildTxArgs)

unfoldable pub find_channel : Text → Channels → Option (List BuildTxArgs)
find_channel k [] = none
find_channel k ((j, tasks) ∷ rest) = if text_eq j k then some tasks else find_channel k rest

-- A send on a channel, and a receive: the tasks of the channel are replaced.
unfoldable pub put_channel : Text → List BuildTxArgs → Channels → Channels
put_channel k tasks [] = []
put_channel k tasks ((j, old) ∷ rest) =
    (j, if text_eq j k then tasks else old) ∷ put_channel k tasks rest

-- A channel is made where there is none.
unfoldable pub add_channel : Text → Channels → Channels
add_channel k chans = elim (find_channel k chans) [ none ↦ (k, []) ∷ chans | some tasks ↦ chans ]

module _ (p : Platform) where
  abbrev pub channels : Bool → World p → Channels
  channels is_swapin w = if is_swapin then w.swapin_task_channels else w.swapout_task_channels

  abbrev pub put_channels : Bool → Channels → World p → World p
  put_channels true c w = record w { swapin_task_channels = c }
  put_channels false c w = record w { swapout_task_channels = c }

  -- AddSwapJob
  unfoldable pub add_swap_job : TokenPairConfig → World p → World p
  unfolding add_channel
  add_swap_job pair w = record w {
    swapin_task_channels =
        add_channel (to_lower pair.dest_token.dcrm_address) w.swapin_task_channels;
    swapout_task_channels =
        add_channel (to_lower pair.src_token.dcrm_address) w.swapout_task_channels;
  }

  no_channel : Bool → Text → Err
  no_channel is_swapin sender = message (
      lit "no "
      ++ ((if is_swapin then lit "swapin" else lit "swapout")
          ++ (lit " task channel for dcrm address '" ++ (sender ++ lit "'"))))

  -- checkSwapTaskChannel
  unfoldable pub check_swap_task_channel : Bool → Text → M p (Unit {0})
  unfolding find_channel no_channel
  check_swap_task_channel is_swapin sender w = (
    elim (find_channel (to_lower sender) (channels is_swapin w)) [
      | none ↦ err (no_channel is_swapin sender)
      | some tasks ↦
          if length tasks == swap_chan_size then err (sentinel swap_channel_is_full) else ok tt
    ],
    w,
  )

  -- A send that does not wait: a full channel refuses it.
  dispatch_to : Bool → BuildTxArgs → M p (Unit {0})
  unfolding find_channel put_channel no_channel
  dispatch_to is_swapin args w =
      let from = to_lower args.from in
      elim (find_channel from (channels is_swapin w)) [
        | none ↦ (err (no_channel is_swapin args.from), w)
        | some tasks ↦
            if leb swap_chan_size (length tasks)
            then (err (sentinel swap_channel_is_full), w)
            else (
              ok tt,
              put_channels is_swapin (put_channel from (tasks ++ args ∷ []) (channels is_swapin w))
                  w,
            )
      ]

  -- dispatchSwapTask
  unfoldable pub dispatch_swap_task : BuildTxArgs → M p (Unit {0})
  unfolding dispatch_to fail
  dispatch_swap_task args = elim args.swap_type [
    | swapin_type ↦ dispatch_to true args
    | swapout_type ↦ dispatch_to false args
    | no_swap_type ↦
        fail (message (lit "wrong swap type '" ++ (swap_type_text no_swap_type ++ lit "'")))
  ]

  -- A receive by the task loop of an account.
  unfoldable pub receive : Bool → Text → World p → Option BuildTxArgs × World p
  unfolding find_channel put_channel
  receive is_swapin dcrm_address w = elim (find_channel dcrm_address (channels is_swapin w)) [
    | none ↦ (none, w)
    | some [] ↦ (none, w)
    | some (args ∷ rest) ↦
        (some args, put_channels is_swapin (put_channel dcrm_address rest (channels is_swapin w)) w)
  ]
